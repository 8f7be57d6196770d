-- ===== src/Policy/Overrides/Tests.antt =====
-- Unlinking is allowed again below the directory that is written to.
use nono_py.Common.{
  Bytes, codes, bytes_eq, true, false, List, [], ◌∷◌, ◌++◌, some, ok, ◌≡◌, refl, is_utf8,
}
use nono_py.Nono.{read, write, CapabilityApi, Grant}
use nono_py.Policy.Types.{macos}
use nono_py.Policy.Paths.{escape_seatbelt_path, escape_from}
use nono_py.Policy.Files.{path_to_utf8}
use nono_py.Policy.Resolution.{each}
use nono_py.Policy.Groups.{platform_rule}
use nono_py.Policy.Overrides.{writable_paths, apply_unlink_overrides}

abbrev rules_only : CapabilityApi
rules_only = record {
  CapabilitySet = List Bytes;
  FsCapability = Bytes;
  new_dir = λ path mode. some path;
  new_file = λ path mode. some path;
  set_source = λ group cap. cap;
  add_fs = λ cap caps. caps;
  add_platform_rule = λ rule caps. some (caps ++ rule ∷ []);
  set_network_blocked = λ b caps. caps;
  is_network_blocked = λ caps. false;
}

abbrev tmp : Grant
tmp = record { access = write; is_file = false; resolved = codes "/tmp" }

overridden :
    apply_unlink_overrides rules_only macos
      (tmp ∷ record tmp { access = read } ∷ record tmp { is_file = true } ∷ [])
      (record { caps = []; deny_paths = [] })
    ≡ (
      ok tt,
      record { caps = codes "(allow file-write-unlink (subpath \"/tmp\"))" ∷ []; deny_paths = [] },
    )
unfolding apply_unlink_overrides writable_paths each platform_rule escape_seatbelt_path escape_from
    path_to_utf8 is_utf8 bytes_eq
overridden = refl
