-- ===== src/Exec/Identity.antt =====
-- src/sandboxed_exec.rs: the identity the child ends up with (`resolve_ids`, `drop_privileges` of
-- the fork path, `drop_privileges_raw` of the clone path). The kernel's calls are a parameter: each
-- takes the credentials of the process, and `none` is a failed call.
pub mod Laws
pub mod Root
mod Tests
use nono_py.Common.{
  ℕ, Bool, true, false, not, ◌&&◌, ◌||◌, List, [], Option, none, some, Result, ok, err, ◌>>=◌,
  if◌then◌else◌, ◌==◌, is_some,
}

pub record ResolvedIds : Type 0 where
  pub uid : Option ℕ
  pub gid : Option ℕ

pub data IdError : Type 0 where
  uid_zero gid_zero : IdError

-- `o == Some(n)`
abbrev pub is_value : Option ℕ → ℕ → Bool
is_value none n = false
is_value (some m) n = m == n

-- `Option::or`
abbrev pub or {ℓ} : {A : Type ℓ} → Option A → Option A → Option A
or none b = b
or (some a) b = some a

unfoldable pub resolve_ids : Option ℕ → Option ℕ → Result IdError ResolvedIds
resolve_ids uid gid =
    if is_value uid 0
    then err uid_zero
    else if is_value gid 0
    then err gid_zero
    else ok (record { uid = uid; gid = if is_some uid then or gid uid else gid })

pub record Creds : Type 0 where
  pub ruid : ℕ
  pub euid : ℕ
  pub rgid : ℕ
  pub egid : ℕ
  pub groups : List ℕ

pub record CredKernel : Type 0 where
  pub setgroups : List ℕ → Creds → Option Creds
  pub setgid : ℕ → Creds → Option Creds
  pub setuid : ℕ → Creds → Option Creds
  pub setresgid : ℕ → ℕ → ℕ → Creds → Option Creds
  pub setresuid : ℕ → ℕ → ℕ → Creds → Option Creds

pub data DropError : Type 0 where
  setgroups_failed : DropError
  setgid_failed gid_not_effective setuid_failed uid_not_effective : ℕ → DropError

module _ (k : CredKernel) where
  unfoldable pub forget_inherited_groups : Creds → Result DropError Creds
  forget_inherited_groups c = elim (k.setgroups [] c) [
    | none ↦ err setgroups_failed
    | some c' ↦ ok c'
  ]

  unfoldable pub switch_group : ℕ → Creds → Result DropError Creds
  switch_group gid c = elim (k.setgid gid c) [
    | none ↦ err (setgid_failed gid)
    | some c' ↦
        if not (c'.rgid == gid) || not (c'.egid == gid) then err (gid_not_effective gid) else ok c'
  ]

  unfoldable pub switch_user : ℕ → Creds → Result DropError Creds
  switch_user uid c = elim (k.setuid uid c) [
    | none ↦ err (setuid_failed uid)
    | some c' ↦
        if not (c'.ruid == uid) || not (c'.euid == uid) then err (uid_not_effective uid) else ok c'
  ]

  -- `if let Some(id) = o { step(id)? }`
  abbrev pub when_some :
      (ℕ → Creds → Result DropError Creds) → Option ℕ → Creds → Result DropError Creds
  when_some step none c = ok c
  when_some step (some n) c = step n c

  unfoldable pub drop_privileges : Option ℕ → Option ℕ → Creds → Result DropError Creds
  drop_privileges uid gid c = if not (is_some uid) && not (is_some gid) then ok c else do
    c1 ← forget_inherited_groups c
    c2 ← when_some switch_group gid c1
    when_some switch_user uid c2

  unfoldable pub raw_group : Option ℕ → Creds → Option Creds
  raw_group none c = some c
  raw_group (some gid) c = elim (k.setresgid gid gid gid c) [
    | none ↦ none
    | some c' ↦ if not (c'.rgid == gid) || not (c'.egid == gid) then none else some c'
  ]

  unfoldable pub raw_user : Option ℕ → Creds → Option Creds
  raw_user none c = some c
  raw_user (some uid) c = elim (k.setresuid uid uid uid c) [
    | none ↦ none
    | some c' ↦ if not (c'.ruid == uid) || not (c'.euid == uid) then none else some c'
  ]

  -- The result `false` is `none`; `true` comes with the credentials then in force.
  unfoldable pub drop_privileges_raw : Option ℕ → Option ℕ → Creds → Option Creds
  drop_privileges_raw uid gid c =
      if not (is_some uid) && not (is_some gid) then some c else elim (k.setgroups [] c) [
        | none ↦ none
        | some c1 ↦ elim (raw_group gid c1) [ none ↦ none | some c2 ↦ raw_user uid c2 ]
      ]
