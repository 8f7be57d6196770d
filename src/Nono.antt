-- ===== src/Nono.antt =====
-- What the modelled code takes from the nono crate: access modes, and a capability set as an
-- abstract type with the operations that are called on it.
use nono_py.Common.{Bytes, Bool, Option, some, ◌≡◌}

pub data AccessMode : Type 0 where
  read write read_write : AccessMode

-- `nono::FsCapability`, by what is read of it.
pub record Grant : Type 0 where
  pub resolved : Bytes
  pub is_file : Bool
  pub access : AccessMode

-- `new_dir` and `new_file` make a capability, `none` for an error, and `set_source` is the
-- assignment of a group as its source. `add_platform_rule` may refuse the rule.
pub record CapabilityApi : Type 1 where
  pub CapabilitySet : Type 0
  pub FsCapability : Type 0
  pub new_dir : Bytes → AccessMode → Option FsCapability
  pub new_file : Bytes → AccessMode → Option FsCapability
  pub set_source : Bytes → FsCapability → FsCapability
  pub add_fs : FsCapability → CapabilitySet → CapabilitySet
  pub add_platform_rule : Bytes → CapabilitySet → Option CapabilitySet
  pub set_network_blocked : Bool → CapabilitySet → CapabilitySet
  pub is_network_blocked : CapabilitySet → Bool

-- That only `set_network_blocked` changes whether the network is blocked, and to what it is given.
pub record KeepsNetwork (api : CapabilityApi) : Type 0 where
  pub after_add_fs :
      (cap : api.FsCapability) (caps : api.CapabilitySet)
      → api.is_network_blocked (api.add_fs cap caps) ≡ api.is_network_blocked caps
  pub after_rule :
      (rule : Bytes) (caps caps' : api.CapabilitySet)
      → api.add_platform_rule rule caps ≡ some caps'
      → api.is_network_blocked caps' ≡ api.is_network_blocked caps
  pub after_set :
      (blocked : Bool) (caps : api.CapabilitySet)
      → api.is_network_blocked (api.set_network_blocked blocked caps) ≡ blocked
