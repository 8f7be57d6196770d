-- ===== src/Policy/Groups.antt =====
-- src/policy.rs: `resolve_groups_impl` and what it calls.
pub mod Keeps
pub mod Denied
pub mod Steps
pub mod Laws
pub mod Proxied
mod Tests
use nono_py.Common.{
  Bytes, codes, bytes_eq, Bool, true, false, ◌&&◌, ◌||◌, not, is_empty, List, [], ◌∷◌, ◌++◌, Option,
  none, some, Result, ok, err, if◌then◌else◌, is_utf8,
}
use nono_py.Nono.{AccessMode, read, write, read_write, CapabilityApi}
use nono_py.SortedMap.{Pairs, lookup}
use nono_py.Policy.Types.{
  AllowOps, DenyOps, NetworkOps, Group, RustPolicy, PolicyError, unknown_group, Platform, macos,
  linux, unknown, group_matches_platform, network_requires_proxy,
}
use nono_py.Policy.Paths.{expand_path, escape_seatbelt_path}
use nono_py.Policy.Checks.{components, same_path}
use nono_py.Policy.Files.{
  FileSystem, not_found, other, GroupError, policy, canonicalization, rule_refused,
  resolve_parent_symlinks, path_to_utf8,
}
use nono_py.Policy.Resolution.{
  Resolution, M, ◌>>=◌, ◌>>◌, pure, lift, in_policy, push_deny, when_some, when, each,
}

abbrev pub is_macos : Platform → Bool
is_macos macos = true
is_macos _ = false

abbrev pub keys : {V : Type 0} → Pairs V → List Bytes
keys [] = []
keys ((k, v) ∷ ps) = k ∷ keys ps

abbrev pub same_file : Bytes → Bytes → Bool
same_file a b = same_path (components a) (components b)

unfoldable pub platform_rule : (api : CapabilityApi) → Bytes → M api.CapabilitySet (Unit {0})
platform_rule api rule s = elim (api.add_platform_rule rule s.caps) [
  | none ↦ (err (rule_refused rule), s)
  | some caps ↦ (ok tt, record s { caps = caps })
]

module _ (api : CapabilityApi) (os : Platform) (env : Bytes → Option Bytes) (fs : FileSystem) where
  open api use {CapabilitySet, new_dir, new_file, set_source, add_fs, set_network_blocked}

  abbrev pub new_capability : AccessMode → Bytes → Option api.FsCapability
  new_capability mode path = if fs.is_dir path then new_dir path mode else new_file path mode

  abbrev pub add_capability : Bytes → api.FsCapability → M CapabilitySet (Unit {0})
  add_capability group_name cap s =
      (ok tt, record s { caps = add_fs (set_source group_name cap) s.caps })

  abbrev pub add_existing : Bytes → AccessMode → Bytes → M CapabilitySet (Unit {0})
  add_existing group_name mode path =
      when (fs.exists path) (when_some (new_capability mode path) (add_capability group_name))

  unfoldable pub add_fs_capability : Bytes → Bytes → AccessMode → M CapabilitySet (Unit {0})
  add_fs_capability group_name path_str mode =
      lift (in_policy (expand_path env path_str)) >>= add_existing group_name mode

  unfoldable pub emit_deny_rules : Bytes → M CapabilitySet (Unit {0})
  emit_deny_rules path = do
    text ← lift (path_to_utf8 path)
    escaped ← lift (in_policy (escape_seatbelt_path text))
    let filter =
        (if fs.exists path && fs.is_file path then codes "literal \"" else codes "subpath \"")
        ++ (escaped ++ codes "\"")
    platform_rule api (codes "(allow file-read-metadata (" ++ (filter ++ codes "))"))
    platform_rule api (codes "(deny file-read-data (" ++ (filter ++ codes "))"))
    platform_rule api (codes "(deny file-write* (" ++ (filter ++ codes "))"))
    platform_rule api (codes "(deny network-outbound (path \"" ++ (escaped ++ codes "\"))"))

  -- The path that `canonicalize` gives, `none` if there is no such file.
  unfoldable pub canonical_of : Bytes → Result GroupError (Option Bytes)
  canonical_of path = elim (fs.canonicalize path) [
    | ok p ↦ ok (some p)
    | err e ↦ elim e [ not_found ↦ ok none | other ↦ err (canonicalization path) ]
  ]

  -- The canonical path if it is another one.
  abbrev pub other_than : Bytes → Option Bytes → Option Bytes
  other_than path none = none
  other_than path (some p) = if same_file p path then none else some p

  unfoldable pub parent_of : Bytes → Option Bytes → Result GroupError (Option Bytes)
  parent_of path none = resolve_parent_symlinks fs path
  parent_of path (some p) = ok none

  -- The rules for the path, its canonical path and its path through the parent's.
  abbrev pub emit_all : Bytes → Option Bytes → Option Bytes → M CapabilitySet (Unit {0})
  emit_all path canonical parent_resolved =
      emit_deny_rules path
      >> (when_some canonical emit_deny_rules >> when_some parent_resolved emit_deny_rules)

  -- What follows once the canonical path is known.
  abbrev pub deny_resolved : Bytes → Option Bytes → Option Bytes → M CapabilitySet (Unit {0})
  deny_resolved path canonical parent_resolved =
      when_some parent_resolved push_deny
      >> when (is_macos os) (emit_all path canonical parent_resolved)

  abbrev pub deny_canonical : Bytes → Option Bytes → M CapabilitySet (Unit {0})
  deny_canonical path canonical =
      when_some (other_than path canonical) push_deny
      >> (lift (parent_of path canonical) >>= deny_resolved path (other_than path canonical))

  abbrev pub deny_expanded : Bytes → M CapabilitySet (Unit {0})
  deny_expanded path = push_deny path >> (lift (canonical_of path) >>= deny_canonical path)

  unfoldable pub add_deny_access_rules : Bytes → M CapabilitySet (Unit {0})
  add_deny_access_rules path_str = lift (in_policy (expand_path env path_str)) >>= deny_expanded

  abbrev pub allow_paths : Bytes → AllowOps → M CapabilitySet (Unit {0})
  allow_paths group_name ops =
      each (λ path. add_fs_capability group_name path read) ops.read
      >> each (λ path. add_fs_capability group_name path write) ops.write
      >> each (λ path. add_fs_capability group_name path read_write) ops.readwrite

  abbrev pub deny_access : DenyOps → M CapabilitySet (Unit {0})
  deny_access ops =
      each add_deny_access_rules ops.access
      >> when (ops.unlink && is_macos os) (platform_rule api (codes "(deny file-write-unlink)"))

  abbrev pub needs_block : NetworkOps → Bool
  needs_block network = network.block || network_requires_proxy network

  abbrev pub set_blocked : M CapabilitySet (Unit {0})
  set_blocked s = (ok tt, record s { caps = set_network_blocked true s.caps })

  abbrev pub block_network : NetworkOps → M CapabilitySet (Unit {0})
  block_network network = when (needs_block network) set_blocked

  abbrev pub allow_symlink : Bytes → M CapabilitySet (Unit {0})
  allow_symlink symlink = do
    expanded ← lift (in_policy (expand_path env symlink))
    text ← lift (path_to_utf8 expanded)
    escaped ← lift (in_policy (escape_seatbelt_path text))
    platform_rule api (codes "(allow file-read* (subpath \"" ++ (escaped ++ codes "\"))"))

  abbrev pub wants_unlink_overrides : Option DenyOps → Bool
  wants_unlink_overrides none = false
  wants_unlink_overrides (some ops) = ops.unlink_override_for_user_writable

  unfoldable pub resolve_single_group : Bytes → Group → M CapabilitySet Bool
  resolve_single_group group_name group = do
    when_some group.allow (allow_paths group_name)
    when_some group.deny deny_access
    when_some group.network block_network
    when (is_macos os) (when_some group.symlink_pairs (λ pairs. each allow_symlink (keys pairs)))
    pure (wants_unlink_overrides group.deny)

  -- `ResolvedPolicy` but for its deny paths, which are those of the state in the end.
  abbrev pub Resolved : Type 0
  Resolved = List Bytes × Bool

  unfoldable pub resolve_from : RustPolicy → Resolved → List Bytes → M CapabilitySet Resolved
  resolve_from policy_groups resolved [] = pure resolved
  resolve_from policy_groups (names, overrides) (name ∷ rest) = elim (lookup name policy_groups) [
    | none ↦ lift (err (policy (unknown_group name)))
    | some group ↦ elim (group_matches_platform os group) [
      | false ↦ resolve_from policy_groups (names, overrides) rest
      | true ↦ resolve_single_group name group >>= λ wants.
          resolve_from policy_groups (names ++ name ∷ [], wants || overrides) rest
    ]
  ]

  unfoldable pub resolve_groups_impl :
      RustPolicy
      → List Bytes
      → CapabilitySet
      → Result GroupError Resolved × Resolution CapabilitySet
  resolve_groups_impl policy_groups group_names caps =
      resolve_from policy_groups ([], false) group_names (record { caps = caps; deny_paths = [] })

  -- The set that is made for the purpose is a parameter.
  unfoldable pub resolve_deny_paths_for_groups :
      CapabilitySet → RustPolicy → List Bytes → Result GroupError (List Bytes)
  resolve_deny_paths_for_groups fresh policy_groups group_names =
      let (r, s) = resolve_groups_impl policy_groups group_names fresh in
      elim r [ err e ↦ err e | ok _ ↦ ok s.deny_paths ]
