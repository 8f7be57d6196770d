-- ===== src/Policy/Types.antt =====
-- src/policy.rs: `RustPolicy` and its parts, and the platforms that groups are for.
use nono_py.Common.{
  ℕ, Bytes, codes, bytes_eq, Bool, true, ◌||◌, not, is_empty, is_some, List, Option, none, some,
}
use nono_py.SortedMap.{Pairs}

pub data PolicyInjectMode : Type 0 where
  header url_path query_param basic_auth : PolicyInjectMode

pub record PolicyEndpointRule : Type 0 where
  pub method : Bytes
  pub path : Bytes

pub record PolicyRouteConfig : Type 0 where
  pub prefix : Bytes
  pub upstream : Bytes
  pub credential_key : Option Bytes
  pub inject_mode : PolicyInjectMode
  pub inject_header : Bytes
  pub credential_format : Bytes
  pub path_pattern : Option Bytes
  pub path_replacement : Option Bytes
  pub query_param_name : Option Bytes
  pub env_var : Option Bytes
  pub endpoint_rules : List PolicyEndpointRule
  pub tls_ca : Option Bytes
  pub tls_client_cert : Option Bytes
  pub tls_client_key : Option Bytes

pub record NetworkOps : Type 0 where
  pub block : Bool
  pub allow_domain : List Bytes
  pub credentials : List Bytes
  pub custom_credentials : Pairs PolicyRouteConfig
  pub upstream_proxy : Option Bytes
  pub upstream_bypass : List Bytes
  pub max_connections : Option ℕ

pub record AllowOps : Type 0 where
  pub read : List Bytes
  pub write : List Bytes
  pub readwrite : List Bytes

pub record DenyOps : Type 0 where
  pub access : List Bytes
  pub unlink : Bool
  pub unlink_override_for_user_writable : Bool

pub record Group : Type 0 where
  pub description : Bytes
  pub platform : Option Bytes
  pub required : Bool
  pub allow : Option AllowOps
  pub deny : Option DenyOps
  pub symlink_pairs : Option (Pairs Bytes)
  pub network : Option NetworkOps

-- `RustPolicy` by its one field that is read
abbrev pub RustPolicy : Type 0
RustPolicy = Pairs Group

-- `NonoError`, one constructor for each message
pub data PolicyError : Type 0 where
  unknown_group : Bytes → PolicyError
  credentials_unsupported : PolicyError
  conflicting_upstream : Bytes → Bytes → PolicyError
  not_set not_absolute : Bytes → PolicyError
  control_character : Bytes → PolicyError
  deny_overlap : List (Bytes × Bytes) → PolicyError
  required_excluded : List Bytes → PolicyError

-- The target of the build.
pub data Platform : Type 0 where
  macos linux unknown : Platform

abbrev pub current_platform : Platform → Bytes
current_platform macos = codes "macos"
current_platform linux = codes "linux"
current_platform unknown = codes "unknown"

abbrev pub group_matches_platform : Platform → Group → Bool
group_matches_platform os group = elim group.platform [
  | some platform ↦ bytes_eq platform (current_platform os)
  | none ↦ true
]

abbrev pub network_requires_proxy : NetworkOps → Bool
network_requires_proxy network =
    not (is_empty network.allow_domain)
    || not (is_empty network.credentials)
    || not (is_empty network.custom_credentials)
    || is_some network.upstream_proxy
    || not (is_empty network.upstream_bypass)
    || is_some network.max_connections
