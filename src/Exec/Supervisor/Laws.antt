-- ===== src/Exec/Supervisor/Laws.antt =====
-- Which trapped calls go on.
use nono_py.Common.{
  Bool, true, false, ◌||◌, List, Option, none, some, ok, ◌≡◌, refl, ◌≢◌, ◌↔◌, ◌⊎◌, inl, inr, arith,
  if◌then◌else◌, ◌==◌, ==_iff, All, Bool-cases, Option-cases,
}
use nono_py.Exec.Bootstrap.{ProxyOnlyPolicy}
use nono_py.Exec.Supervisor.{
  Dest, ChildMemory, Syscalls, Notif, continued, sockaddr_allowed, dest_allowed, all_dests, allow,
  Listener, answer, handle_proxy_notification,
}
use nono_py.Exec.Supervisor.Readable.{AreDistinct}
use nono_py.Exec.Supervisor.Destinations.{
  NamesProxy-iff, names_bind_iff, dests_iff, dest_iff, NamesProxy, NamesBindPort, DestOk,
}

module _ (m : ChildMemory) (s : Syscalls) (policy : ProxyOnlyPolicy) where
  -- What a proxy-only child may do.
  pub data Permitted (n : Notif) : Type 0 where
    connects : n.nr ≡ s.sys_connect → NamesProxy m s policy n.pid n.arg1 n.arg2 → Permitted n
    binds : n.nr ≡ s.sys_bind → NamesBindPort m s policy n.pid n.arg1 n.arg2 → Permitted n
    sends_on : n.nr ≡ s.sys_sendto → (n.arg4 ≡ 0) ⊎ (n.arg5 ≡ 0) → Permitted n
    sends_to :
        n.nr ≡ s.sys_sendto
        → n.arg4 ≢ 0
        → n.arg5 ≢ 0
        → NamesProxy m s policy n.pid n.arg4 n.arg5
        → Permitted n
    sends_message :
        n.nr ≡ s.sys_sendmsg
        → (d : Option Dest) → m.read_msghdr_dest n.pid n.arg1 ≡ some d
        → DestOk m s policy n.pid d
        → Permitted n
    sends_messages :
        n.nr ≡ s.sys_sendmmsg
        → (ds : List (Option Dest)) → m.read_mmsghdr_dests n.pid n.arg1 n.arg2 ≡ some ds
        → All (DestOk m s policy n.pid) ds
        → Permitted n

  sendto-Permitted :
      (n : Notif)
      → n.nr ≡ s.sys_sendto
      → (if n.arg4 == 0 || n.arg5 == 0
          then some true
          else sockaddr_allowed m s policy n.pid n.arg4 n.arg5 false)
        ≡ some true
      → Permitted n
  sendto-Permitted n e h = elim (Bool-cases (n.arg4 == 0)) [
    | inl z ↦ sends_on e (inl ((==_iff _ _).0 z))
    | inr z ↦ elim (Bool-cases (n.arg5 == 0)) [
      | inl y ↦ sends_on e (inr ((==_iff _ _).0 y))
      | inr y ↦
          sends_to e (ground arith) (ground arith)
            ((NamesProxy-iff m s policy n.pid n.arg4 n.arg5).0 (rw (z, y) at h))
    ]
  ]

  sendmsg-Permitted :
      (n : Notif)
      → n.nr ≡ s.sys_sendmsg
      → elim (m.read_msghdr_dest n.pid n.arg1) as (λ _. Option Bool) [
        | none ↦ none
        | some dest ↦ dest_allowed m s policy n.pid dest
      ]
        ≡ some true
      → Permitted n
  sendmsg-Permitted n e h = elim (Option-cases (m.read_msghdr_dest n.pid n.arg1)) [
    | inl z ↦ absurd (ground arith)
    | inr (dest, r) ↦ sends_message e dest r ((dest_iff m s policy n.pid dest).0 (ground arith))
  ]

  sendmmsg-Permitted :
      (n : Notif)
      → n.nr ≡ s.sys_sendmmsg
      → elim (m.read_mmsghdr_dests n.pid n.arg1 n.arg2) as (λ _. Option Bool) [
        | none ↦ none
        | some dests ↦ all_dests m s policy n.pid true dests
      ]
        ≡ some true
      → Permitted n
  sendmmsg-Permitted n e h = elim (Option-cases (m.read_mmsghdr_dests n.pid n.arg1 n.arg2)) [
    | inl z ↦ absurd (ground arith)
    | inr (dests, r) ↦
        sends_messages e dests r ((dests_iff m s policy n.pid dests).0 (ground arith))
  ]

  answer_continued :
      (l : Listener) (n : Notif) (a : Option Bool)
      → answer l n a ≡ ok continued
      → (a ≡ some true) × (l.notif_id_valid n.id ≡ some true) × (l.continue_notif n.id ≡ true)
  unfolding answer
  answer_continued l n none h = absurd (ground arith)
  answer_continued l n (some a) h = ground arith

  pub allow-Permitted : (n : Notif) → allow m s policy n ≡ some true → Permitted n
  unfolding allow
  allow-Permitted n h = elim (Bool-cases (n.nr == s.sys_connect)) [
    | inl c ↦
        connects ((==_iff _ _).0 c) ((NamesProxy-iff m s policy n.pid n.arg1 n.arg2).0 (rw c at h))
    | inr c ↦ elim (Bool-cases (n.nr == s.sys_bind)) [
      | inl b ↦
          binds ((==_iff _ _).0 b)
            ((names_bind_iff m s policy n.pid n.arg1 n.arg2).0 (rw (c, b) at h))
      | inr b ↦ elim (Bool-cases (n.nr == s.sys_sendto)) [
        | inl t ↦ sendto-Permitted n ((==_iff _ _).0 t) (rw (c, b, t) at h)
        | inr t ↦ elim (Bool-cases (n.nr == s.sys_sendmsg)) [
          | inl g ↦ sendmsg-Permitted n ((==_iff _ _).0 g) (ground arith)
          | inr g ↦ elim (Bool-cases (n.nr == s.sys_sendmmsg)) [
            | inl k ↦ sendmmsg-Permitted n ((==_iff _ _).0 k) (ground arith)
            | inr k ↦ absurd (ground arith)
          ]
        ]
      ]
    ]
  ]

  module _ (d : AreDistinct s) where
    pub Permitted-allow : (n : Notif) → Permitted n → allow m s policy n ≡ some true
    unfolding allow
    Permitted-allow n (connects e p) =
        ground (arith, NamesProxy-iff m s policy n.pid n.arg1 n.arg2, p)
    Permitted-allow n (binds e p) =
        ground (arith, (names_bind_iff m s policy n.pid n.arg1 n.arg2).1 p)
    Permitted-allow n (sends_on e z) = ground arith
    Permitted-allow n (sends_to e a b p) =
        ground (arith, (NamesProxy-iff m s policy n.pid n.arg4 n.arg5).1 p)
    Permitted-allow n (sends_message e dest r p) =
        ground (arith, (dest_iff m s policy n.pid dest).1 p)
    Permitted-allow n (sends_messages e ds r p) =
        ground (arith, (dests_iff m s policy n.pid ds).1 p)

    -- A trapped call goes on exactly when it is permitted, its notification is still valid and the
    -- kernel takes the reply: a connect or a send to the proxy's port on loopback, a bind to a
    -- listed port, a send on a connected socket; of several messages each one.
    pub handle-continued_iff :
        (l : Listener) (n : Notif)
        → (handle_proxy_notification m s policy l (some n) ≡ ok continued)
          ↔ (Permitted n × (l.notif_id_valid n.id ≡ some true) × (l.continue_notif n.id ≡ true))
    unfolding handle_proxy_notification answer
    handle-continued_iff l n = (
      λ h.
          let (a, v, c) = answer_continued l n (allow m s policy n) h in
          (allow-Permitted n a, v, c),
      λ p. rw (Permitted-allow n p.0, answer, p.1, p.2) refl,
    )
