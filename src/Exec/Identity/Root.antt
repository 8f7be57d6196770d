-- ===== src/Exec/Identity/Root.antt =====
-- A root parent can always make the drop.
use nono_py.Common.{ℕ, List, [], Option, none, some, ◌≡◌}
use nono_py.Exec.Identity.{Creds, CredKernel}

-- The credentials after a full drop, from those before.
abbrev pub dropped : Option ℕ → Option ℕ → Creds → Creds
dropped none none c = c
dropped none (some g) c = record c { rgid = g; egid = g; groups = [] }
dropped (some u) none c = record c { ruid = u; euid = u; groups = [] }
dropped (some u) (some g) c = record { ruid = u; euid = u; rgid = g; egid = g; groups = [] }

-- What the calls do for a process whose effective user is root.
pub record RootMay (k : CredKernel) : Type 0 where
  pub may_setgroups :
      (gs : List ℕ) (c : Creds) → c.euid ≡ 0 → k.setgroups gs c ≡ some (record c { groups = gs })
  pub may_setgid :
      (g : ℕ) (c : Creds) → c.euid ≡ 0 → k.setgid g c ≡ some (record c { rgid = g; egid = g })
  pub may_setuid :
      (u : ℕ) (c : Creds) → c.euid ≡ 0 → k.setuid u c ≡ some (record c { ruid = u; euid = u })
  pub may_setresgid :
      (g : ℕ) (c : Creds)
      → c.euid ≡ 0
      → k.setresgid g g g c ≡ some (record c { rgid = g; egid = g })
  pub may_setresuid :
      (u : ℕ) (c : Creds)
      → c.euid ≡ 0
      → k.setresuid u u u c ≡ some (record c { ruid = u; euid = u })
