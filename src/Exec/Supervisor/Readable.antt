-- ===== src/Exec/Supervisor/Readable.antt =====
-- Which trapped calls the supervisor can judge: those whose addresses can be read.
use nono_py.Common.{
  ℕ, Bool, true, false, ◌&&◌, ◌||◌, List, [], ◌∷◌, Option, none, some, is_some, ◌≡◌, refl, ◌≢◌, ◌↔◌,
  ◌⊎◌, inl, inr, arith, ==_iff, ◌==◌, if◌then◌else◌, All, Bool-cases, Option-cases,
}
use nono_py.Exec.Bootstrap.{ProxyOnlyPolicy}
use nono_py.Exec.Supervisor.{
  Dest, ChildMemory, Syscalls, Notif, sockaddr_allowed, dest_allowed, all_dests, allow,
}

-- The five calls have different numbers, as on every platform.
pub record AreDistinct (s : Syscalls) : Type 0 where
  pub bind_connect : s.sys_bind ≢ s.sys_connect
  pub sendto_connect : s.sys_sendto ≢ s.sys_connect
  pub sendto_bind : s.sys_sendto ≢ s.sys_bind
  pub sendmsg_connect : s.sys_sendmsg ≢ s.sys_connect
  pub sendmsg_bind : s.sys_sendmsg ≢ s.sys_bind
  pub sendmsg_sendto : s.sys_sendmsg ≢ s.sys_sendto
  pub sendmmsg_connect : s.sys_sendmmsg ≢ s.sys_connect
  pub sendmmsg_bind : s.sys_sendmmsg ≢ s.sys_bind
  pub sendmmsg_sendto : s.sys_sendmmsg ≢ s.sys_sendto
  pub sendmmsg_sendmsg : s.sys_sendmmsg ≢ s.sys_sendmsg

module _ (m : ChildMemory) (s : Syscalls) where
  abbrev pub IsAddress : ℕ → ℕ → ℕ → Type 0
  IsAddress pid ptr len = is_some (m.read_notif_sockaddr pid ptr len) ≡ true

  -- A message without a destination names no address.
  abbrev pub IsDest : ℕ → Option Dest → Type 0
  IsDest pid none = Unit
  IsDest pid (some (ptr, len)) = IsAddress pid ptr len

  -- Every address that the call names can be read, and where they are listed, the list.
  pub data IsReadable (n : Notif) : Type 0 where
    connects : n.nr ≡ s.sys_connect → IsAddress n.pid n.arg1 n.arg2 → IsReadable n
    binds : n.nr ≡ s.sys_bind → IsAddress n.pid n.arg1 n.arg2 → IsReadable n
    sends_on : n.nr ≡ s.sys_sendto → (n.arg4 ≡ 0) ⊎ (n.arg5 ≡ 0) → IsReadable n
    sends_to :
        n.nr ≡ s.sys_sendto → n.arg4 ≢ 0 → n.arg5 ≢ 0 → IsAddress n.pid n.arg4 n.arg5 → IsReadable n
    sends_message :
        n.nr ≡ s.sys_sendmsg
        → (d : Option Dest) → m.read_msghdr_dest n.pid n.arg1 ≡ some d
        → IsDest n.pid d
        → IsReadable n
    sends_messages :
        n.nr ≡ s.sys_sendmmsg
        → (ds : List (Option Dest)) → m.read_mmsghdr_dests n.pid n.arg1 n.arg2 ≡ some ds
        → All (IsDest n.pid) ds
        → IsReadable n
    is_another :
        n.nr ≢ s.sys_connect
        → n.nr ≢ s.sys_bind
        → n.nr ≢ s.sys_sendto
        → n.nr ≢ s.sys_sendmsg
        → n.nr ≢ s.sys_sendmmsg
        → IsReadable n

  module _ (policy : ProxyOnlyPolicy) where
    is_some-sockaddr_allowed :
        (pid ptr len : ℕ) (for_bind : Bool)
        → is_some (sockaddr_allowed m s policy pid ptr len for_bind)
          ≡ is_some (m.read_notif_sockaddr pid ptr len)
    unfolding sockaddr_allowed
    is_some-sockaddr_allowed pid ptr len for_bind =
        elim (Option-cases (m.read_notif_sockaddr pid ptr len)) [
          | inl e ↦ rw (sockaddr_allowed, e) refl
          | inr (a, e) ↦ rw (sockaddr_allowed, e) refl
        ]

    dest_iff :
        (pid : ℕ) (d : Option Dest)
        → (is_some (dest_allowed m s policy pid d) ≡ true) ↔ IsDest pid d
    unfolding dest_allowed
    dest_iff pid none = ((λ _. tt), (λ _. refl))
    dest_iff pid (some (ptr, len)) =
        let q = is_some-sockaddr_allowed pid ptr len false in ((λ h. cc (q, h)), (λ h. cc (q, h)))

    -- The fold reads every destination, whatever it has found so far.
    dests_iff :
        (pid : ℕ) (acc : Bool) (ds : List (Option Dest))
        → (is_some (all_dests m s policy pid acc ds) ≡ true) ↔ All (IsDest pid) ds
    unfolding all_dests
    dests_iff pid acc [] = ((λ _. tt), (λ _. refl))
    dests_iff pid acc (d ∷ ds) = elim (Option-cases (dest_allowed m s policy pid d)) [
      | inl e ↦
          (λ h. absurd (ground arith), λ h. absurd (let q = (dest_iff pid d).1 h.0 in ground arith))
      | inr (a, e) ↦
          let (only, back) = dests_iff pid (acc && a) ds in
          (
            λ h. ((dest_iff pid d).0 (rw e refl), only (rw (all_dests, e) at h)),
            λ h. rw (all_dests, e) (back h.1),
          )
    ]

    allow-IsReadable : (n : Notif) → is_some (allow m s policy n) ≡ true → IsReadable n
    unfolding allow
    allow-IsReadable n h = elim (Bool-cases (n.nr == s.sys_connect)) [
      | inl c ↦
          let q = is_some-sockaddr_allowed n.pid n.arg1 n.arg2 false in
          connects (ground arith) (ground arith)
      | inr c ↦ elim (Bool-cases (n.nr == s.sys_bind)) [
        | inl b ↦
            let q = is_some-sockaddr_allowed n.pid n.arg1 n.arg2 true in
            binds (ground arith) (ground arith)
        | inr b ↦ elim (Bool-cases (n.nr == s.sys_sendto)) [
          | inl t ↦ sendto n ((==_iff _ _).0 t) (rw (allow, c, b, t) at h)
          | inr t ↦ elim (Bool-cases (n.nr == s.sys_sendmsg)) [
            | inl g ↦ elim (Option-cases (m.read_msghdr_dest n.pid n.arg1)) [
              | inl z ↦ absurd (ground arith)
              | inr (d, z) ↦
                  sends_message ((==_iff _ _).0 g) d z ((dest_iff n.pid d).0 (ground arith))
            ]
            | inr g ↦ elim (Bool-cases (n.nr == s.sys_sendmmsg)) [
              | inl k ↦ elim (Option-cases (m.read_mmsghdr_dests n.pid n.arg1 n.arg2)) [
                | inl z ↦ absurd (ground arith)
                | inr (ds, z) ↦
                    sends_messages ((==_iff _ _).0 k) ds z
                      ((dests_iff n.pid true ds).0 (ground arith))
              ]
              | inr k ↦
                  is_another (ground arith) (ground arith) (ground arith) (ground arith)
                    (ground arith)
            ]
          ]
        ]
      ]
    ]
      where
        sendto :
            (n : Notif)
            → n.nr ≡ s.sys_sendto
            → is_some (
                if n.arg4 == 0 || n.arg5 == 0
                then some true
                else sockaddr_allowed m s policy n.pid n.arg4 n.arg5 false)
              ≡ true
            → IsReadable n
        sendto n e h = elim (Bool-cases (n.arg4 == 0)) [
          | inl z ↦ sends_on e (inl ((==_iff _ _).0 z))
          | inr z ↦ elim (Bool-cases (n.arg5 == 0)) [
            | inl y ↦ sends_on e (inr ((==_iff _ _).0 y))
            | inr y ↦
                let q = is_some-sockaddr_allowed n.pid n.arg4 n.arg5 false in
                sends_to e (ground arith) (ground arith) (ground arith)
          ]
        ]

    module _ (distinct : AreDistinct s) where
      IsReadable-allow : (n : Notif) → IsReadable n → is_some (allow m s policy n) ≡ true
      unfolding allow
      IsReadable-allow n (connects e p) =
          ground (arith, is_some-sockaddr_allowed n.pid n.arg1 n.arg2 false)
      IsReadable-allow n (binds e p) =
          ground (arith, is_some-sockaddr_allowed n.pid n.arg1 n.arg2 true)
      IsReadable-allow n (sends_on e z) = ground arith
      IsReadable-allow n (sends_to e a b p) =
          ground (arith, is_some-sockaddr_allowed n.pid n.arg4 n.arg5 false)
      IsReadable-allow n (sends_message e d r p) = ground (arith, (dest_iff n.pid d).1 p)
      IsReadable-allow n (sends_messages e ds r p) = ground (arith, (dests_iff n.pid true ds).1 p)
      IsReadable-allow n (is_another c b t g k) = ground arith

      -- The code reaches a decision exactly about the calls whose addresses can be read.
      pub allow-IsReadable_iff : (n : Notif) → (is_some (allow m s policy n) ≡ true) ↔ IsReadable n
      allow-IsReadable_iff n = (allow-IsReadable n, IsReadable-allow n)
