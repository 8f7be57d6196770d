-- ===== src/Policy/Groups/Tests.antt =====
-- A small file system with a link, and a capability set that records what is added to it.
use nono_py.Common.{
  Bytes, codes, bytes_eq, strip_prefix, starts_with, Bool, true, false, ◌||◌, List, [], ◌∷◌, ◌++◌,
  Option, none, some, ok, err, if◌then◌else◌, ◌≡◌, refl, is_utf8,
}
use nono_py.Nono.{CapabilityApi, KeepsNetwork}
use nono_py.SortedMap.{lookup}
use nono_py.Policy.Types.{NetworkOps, Group, RustPolicy, linux, unknown_group}
use nono_py.Policy.Paths.{
  expand_path, expand_rest, validated_env_path, escape_seatbelt_path, escape_from,
}
use nono_py.Policy.Checks.{components, segments, normal, same_path}
use nono_py.Policy.Files.{
  FileSystem, not_found, policy, climb, resolve_parent_symlinks, push, push_all, path_to_utf8,
}
use nono_py.Policy.Resolution.{Resolution, each}
use nono_py.Policy.Network.{
  ProxyConfig, resolve_proxy_config_impl, gather_groups, gather, push_new, set_upstream,
  finish_config,
}
use nono_py.Policy.Groups.{
  platform_rule, add_fs_capability, emit_deny_rules, canonical_of, parent_of, add_deny_access_rules,
  resolve_single_group, resolve_from, resolve_groups_impl,
}
use nono_py.Policy.Groups.Laws.{IsResolved, resolve_groups_impl-IsResolved}
use nono_py.Policy.Groups.Proxied.{resolve_groups_impl-resolve_proxy_config_impl}

record Recorded : Type 0 where
  added : List Bytes
  rules : List Bytes
  blocked : Bool

abbrev recording : CapabilityApi
recording = record {
  CapabilitySet = Recorded;
  FsCapability = Bytes;
  new_dir = λ path mode. some path;
  new_file = λ path mode. some path;
  set_source = λ group cap. cap;
  add_fs = λ cap caps. record caps { added = caps.added ++ cap ∷ [] };
  add_platform_rule = λ rule caps. some (record caps { rules = caps.rules ++ rule ∷ [] });
  set_network_blocked = λ b caps. record caps { blocked = b };
  is_network_blocked = λ caps. caps.blocked;
}

recording_keeps : KeepsNetwork recording
recording_keeps = record {
  after_add_fs = λ cap caps. refl;
  after_rule = λ rule caps caps' e. same rule caps caps' e;
  after_set = λ b caps. refl;
}
  where
    same :
        (rule : Bytes) (caps caps' : Recorded)
        → some (record caps { rules = caps.rules ++ rule ∷ [] }) ≡ some caps'
        → caps'.blocked ≡ caps.blocked
    same rule caps caps' e = cc e

-- `/home/u/link` leads to `/data`.
abbrev disk : FileSystem
disk = record {
  exists = λ p.
      bytes_eq p (codes "/data") || bytes_eq p (codes "/home/u/link") || bytes_eq p (codes "/usr");
  is_dir = λ cs. true;
  is_file = λ cs. false;
  canonicalize = λ p.
      if bytes_eq p (codes "/home/u/link")
      then ok (codes "/data")
      else if bytes_eq p (codes "/data")
      then ok (codes "/data")
      else err not_found;
}

abbrev env : Bytes → Option Bytes
env name = if bytes_eq name (codes "HOME") then some (codes "/home/u") else none

abbrev network : NetworkOps
network = record {
  block = false;
  allow_domain = [];
  credentials = [];
  custom_credentials = [];
  upstream_proxy = none;
  upstream_bypass = [];
  max_connections = some 2;
}

abbrev secrets : Group
secrets = record {
  description = [];
  platform = none;
  required = true;
  allow = some record { read = codes "/usr" ∷ codes "/none" ∷ []; write = []; readwrite = [] };
  deny = some record {
    access = codes "~/link" ∷ codes "~/link/a/b" ∷ [];
    unlink = true;
    unlink_override_for_user_writable = true;
  };
  symlink_pairs = none;
  network = some network;
}

abbrev groups : RustPolicy
groups =
    (codes "secrets", secrets)
    ∷ (codes "mac", record secrets { platform = some (codes "macos") })
    ∷ []

abbrev names : List Bytes
names = codes "secrets" ∷ codes "mac" ∷ []

abbrev nothing : Recorded
nothing = record { added = []; rules = []; blocked = false }

abbrev outcome : Resolution Recorded
outcome = record {
  caps = record { added = codes "/usr" ∷ []; rules = []; blocked = true };
  deny_paths =
      codes "/home/u/link" ∷ codes "/data" ∷ codes "/home/u/link/a/b" ∷ codes "/data/a/b" ∷ [];
}

group_functions : Unit {0}
unfolding resolve_groups_impl resolve_from resolve_single_group add_deny_access_rules parent_of
    canonical_of emit_deny_rules add_fs_capability platform_rule each climb resolve_parent_symlinks
    push push_all components segments normal same_path expand_path expand_rest validated_env_path
    escape_seatbelt_path escape_from lookup bytes_eq strip_prefix starts_with path_to_utf8 is_utf8
group_functions = tt

resolved :
    resolve_groups_impl recording linux env disk groups names nothing
    ≡ (ok (codes "secrets" ∷ [], true), outcome)
unfolding group_functions
resolved = refl

-- The set keeps what was added before a name that is not known.
unresolved :
    resolve_groups_impl recording linux env disk groups (codes "secrets" ∷ codes "zz" ∷ []) nothing
    ≡ (err (policy (unknown_group (codes "zz"))), outcome)
unfolding group_functions
unresolved = refl

abbrev limited : ProxyConfig
limited = record { allowed_hosts = []; routes = []; external_proxy = none; max_connections = 2 }

configured : resolve_proxy_config_impl linux 256 groups names ≡ ok (some limited)
unfolding resolve_proxy_config_impl gather_groups gather push_new set_upstream finish_config lookup
    bytes_eq
configured = refl

resolve_groups_impl-IsResolved_example :
    IsResolved recording linux env disk recording_keeps groups names nothing
      (codes "secrets" ∷ [], true)
      outcome
resolve_groups_impl-IsResolved_example =
    resolve_groups_impl-IsResolved recording linux env disk recording_keeps groups names nothing
      (codes "secrets" ∷ [], true) outcome resolved

resolve_groups_impl-resolve_proxy_config_impl_example : outcome.caps.blocked ≡ true
resolve_groups_impl-resolve_proxy_config_impl_example =
    resolve_groups_impl-resolve_proxy_config_impl recording linux env disk recording_keeps groups
      names 256 limited nothing (codes "secrets" ∷ [], true) outcome configured resolved
