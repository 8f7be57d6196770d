-- ===== src/Exec/Supervisor/Destinations.antt =====
-- Which addresses a trapped call may name.
use nono_py.Common.{
  ℕ, true, false, List, [], ◌∷◌, Option, none, some, ◌≡◌, refl, ◌≢◌, ◌↔◌, inl, inr, arith, ==_iff,
  contains, All, Bool-cases, Option-cases,
}
use nono_py.Exec.Bootstrap.{ProxyOnlyPolicy}
use nono_py.Exec.Supervisor.{
  SockAddr, Dest, ChildMemory, Syscalls, sockaddr_allowed, dest_allowed, all_dests,
}

module _ (m : ChildMemory) (s : Syscalls) (policy : ProxyOnlyPolicy) where
  -- The address at `ptr` can be read and is the proxy's: loopback, and its port.
  pub record NamesProxy (pid ptr len : ℕ) : Type 0 where
    pub addr : SockAddr
    pub read : m.read_notif_sockaddr pid ptr len ≡ some addr
    pub loopback : addr.is_loopback ≡ true
    pub port : addr.port ≡ policy.proxy_port

  pub record NamesBindPort (pid ptr len : ℕ) : Type 0 where
    pub addr : SockAddr
    pub read : m.read_notif_sockaddr pid ptr len ≡ some addr
    pub listed : contains addr.port policy.bind_ports ≡ true

  abbrev pub DestOk : ℕ → Option Dest → Type 0
  DestOk pid none = Unit
  DestOk pid (some (ptr, len)) = NamesProxy pid ptr len

  pub NamesProxy-iff :
      (pid ptr len : ℕ)
      → (sockaddr_allowed m s policy pid ptr len false ≡ some true) ↔ NamesProxy pid ptr len
  unfolding sockaddr_allowed
  NamesProxy-iff pid ptr len = (
    λ h. elim (Option-cases (m.read_notif_sockaddr pid ptr len)) [
      | inl e ↦ absurd (ground arith)
      | inr (a, e) ↦ record { addr = a; read = e; loopback = ground arith; port = ground arith }
    ],
    λ p.
        rw (sockaddr_allowed, p.read, p.loopback, (==_iff p.addr.port policy.proxy_port).1 p.port)
          refl,
  )

  pub names_bind_iff :
      (pid ptr len : ℕ)
      → (sockaddr_allowed m s policy pid ptr len true ≡ some true) ↔ NamesBindPort pid ptr len
  unfolding sockaddr_allowed
  names_bind_iff pid ptr len = (
    λ h. elim (Option-cases (m.read_notif_sockaddr pid ptr len)) [
      | inl e ↦ absurd (ground arith)
      | inr (a, e) ↦ record { addr = a; read = e; listed = ground arith }
    ],
    λ p. rw (sockaddr_allowed, p.read, p.listed) refl,
  )

  pub dest_iff :
      (pid : ℕ) (d : Option Dest) → (dest_allowed m s policy pid d ≡ some true) ↔ DestOk pid d
  unfolding dest_allowed
  dest_iff pid none = ((λ _. tt), (λ _. refl))
  dest_iff pid (some (ptr, len)) = NamesProxy-iff pid ptr len

  all_dests-false :
      (pid : ℕ) (ds : List (Option Dest)) → all_dests m s policy pid false ds ≢ some true
  unfolding all_dests
  all_dests-false pid [] h = cc
  all_dests-false pid (d ∷ ds) h = elim (Option-cases (dest_allowed m s policy pid d)) [
    | inl e ↦ ground arith
    | inr (a, e) ↦ all_dests-false pid ds (ground arith)
  ]

  dests_split :
      (pid : ℕ) (d : Option Dest) (ds : List (Option Dest))
      → all_dests m s policy pid true (d ∷ ds) ≡ some true
      → DestOk pid d × (all_dests m s policy pid true ds ≡ some true)
  unfolding all_dests
  dests_split pid d ds h = elim (Option-cases (dest_allowed m s policy pid d)) [
    | inl e ↦ absurd (ground arith)
    | inr (a, e) ↦ elim (Bool-cases a) [
      | inl t ↦ ((dest_iff pid d).0 (ground arith), ground arith)
      | inr f ↦ absurd (all_dests-false pid ds (ground arith))
    ]
  ]

  dests_join :
      (pid : ℕ) (d : Option Dest) (ds : List (Option Dest))
      → dest_allowed m s policy pid d ≡ some true
      → all_dests m s policy pid true ds ≡ some true
      → all_dests m s policy pid true (d ∷ ds) ≡ some true
  unfolding all_dests
  dests_join pid d ds e h = rw (e, all_dests) h

  pub dests_iff :
      (pid : ℕ) (ds : List (Option Dest))
      → (all_dests m s policy pid true ds ≡ some true) ↔ All (DestOk pid) ds
  dests_iff pid [] = unfold all_dests in ((λ _. tt), (λ _. refl))
  dests_iff pid (d ∷ ds) = (
    λ h. let (a, rest) = dests_split pid d ds h in (a, (dests_iff pid ds).0 rest),
    λ a. dests_join pid d ds ((dest_iff pid d).1 a.0) ((dests_iff pid ds).1 a.1),
  )
