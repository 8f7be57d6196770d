-- ===== src/Policy/Overrides.antt =====
-- src/policy.rs: `apply_unlink_overrides`.
mod Tests
use nono_py.Common.{
  Bytes, codes, Bool, true, false, ◌&&◌, not, List, [], ◌∷◌, ◌++◌, Option, none, some, Result, ok,
  err, if◌then◌else◌,
}
use nono_py.Nono.{AccessMode, read, write, read_write, CapabilityApi, Grant}
use nono_py.Policy.Types.{Platform, linux, macos, unknown}
use nono_py.Policy.Paths.{escape_seatbelt_path}
use nono_py.Policy.Files.{GroupError, path_to_utf8}
use nono_py.Policy.Resolution.{M, ◌>>=◌, ◌>>◌, pure, lift, in_policy, each}
use nono_py.Policy.Groups.{platform_rule}

abbrev pub writes : AccessMode → Bool
writes read = false
writes write = true
writes read_write = true

unfoldable pub writable_paths : List Grant → List Bytes
writable_paths [] = []
writable_paths (cap ∷ caps) =
    let rest = writable_paths caps in
    if writes cap.access && not cap.is_file then cap.resolved ∷ rest else rest

module _ (api : CapabilityApi) where
  open api use {CapabilitySet}

  abbrev pub allow_unlink : Bytes → M CapabilitySet (Unit {0})
  allow_unlink path = do
    text ← lift (path_to_utf8 path)
    escaped ← lift (in_policy (escape_seatbelt_path text))
    platform_rule api (codes "(allow file-write-unlink (subpath \"" ++ (escaped ++ codes "\"))"))

  -- The list is the set's, whose paths are collected before the first rule is added.
  unfoldable pub apply_unlink_overrides : Platform → List Grant → M CapabilitySet (Unit {0})
  apply_unlink_overrides linux caps = pure tt
  apply_unlink_overrides macos caps = each allow_unlink (writable_paths caps)
  apply_unlink_overrides unknown caps = each allow_unlink (writable_paths caps)
