-- ===== src/Exec/Identity/Tests.antt =====
-- A kernel that follows the rules, and the instances of the theorems.
use nono_py.Common.{
  Bool, [], ◌∷◌, Option, none, some, ok, err, ◌≡◌, refl, ◌≢◌, inl, if◌then◌else◌, ◌==◌, arith,
}
use nono_py.Exec.Identity.{
  uid_zero, gid_zero, resolve_ids, Creds, CredKernel, forget_inherited_groups, switch_group,
  switch_user, drop_privileges, raw_group, raw_user, drop_privileges_raw,
}
use nono_py.Exec.Identity.Laws.{
  Documented, IsDropped, drop_privileges-IsDropped, drop_privileges_raw-IsDropped,
}

abbrev may : Bool → Creds → Option Creds
may b c = if b then some c else none

-- Root may set anything; another process may only set an id that it has.
abbrev linux : CredKernel
linux = record {
  setgroups = λ gs c. may (c.euid == 0) (record c { groups = gs });
  setgid = λ g c. may (c.euid == 0) (record c { rgid = g; egid = g });
  setuid = λ u c. may (c.euid == 0) (record c { ruid = u; euid = u });
  setresgid = λ r e s c. may (c.euid == 0) (record c { rgid = r; egid = e });
  setresuid = λ r e s c. may (c.euid == 0) (record c { ruid = r; euid = e });
}

linux-Documented : Documented linux
linux-Documented = record {
  setgroups_sets = λ gs c c' h. ground arith;
  setgid_keeps = λ g c c' h. ground arith;
  setuid_keeps = λ u c c' h. ground arith;
  setresgid_keeps = λ r e s c c' h. ground arith;
  setresuid_keeps = λ r e s c c' h. ground arith;
}

abbrev root : Creds
root = record { ruid = 0; euid = 0; rgid = 0; egid = 0; groups = 0 ∷ 27 ∷ [] }

abbrev nobody : Creds
nobody = record { ruid = 99; euid = 99; rgid = 7; egid = 7; groups = [] }

fork_drop : drop_privileges linux (some 99) (some 7) root ≡ ok nobody
unfolding drop_privileges forget_inherited_groups switch_group switch_user
fork_drop = refl

clone_drop : drop_privileges_raw linux (some 99) (some 7) root ≡ some nobody
unfolding drop_privileges_raw raw_group raw_user
clone_drop = refl

-- From an ordinary user the drop fails.
ordinary :
    (drop_privileges linux none (some 7) (record root { euid = 5 }) ≢ ok root)
    × (resolve_ids (some 0) none ≡ err uid_zero)
    × (resolve_ids (some 3) (some 0) ≡ err gid_zero)
unfolding drop_privileges forget_inherited_groups resolve_ids
ordinary = (cc, refl, refl)

resolved : resolve_ids (some 99) none ≡ ok (record { uid = some 99; gid = some 99 })
unfolding resolve_ids
resolved = refl

drop_privileges-IsDropped_example : IsDropped (some 99) (some 7) nobody
drop_privileges-IsDropped_example =
    drop_privileges-IsDropped linux linux-Documented (some 99) (some 7) root nobody (inl (cc))
      fork_drop

drop_privileges_raw-IsDropped_example : IsDropped (some 99) (some 7) nobody
drop_privileges_raw-IsDropped_example =
    drop_privileges_raw-IsDropped linux linux-Documented (some 99) (some 7) root nobody (inl (cc))
      clone_drop
