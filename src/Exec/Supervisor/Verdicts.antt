-- ===== src/Exec/Supervisor/Verdicts.antt =====
-- The verdicts of one service of the listener.
use nono_py.Common.{
  Bool, true, false, List, [], ◌∷◌, Option, none, some, ok, ◌≡◌, refl, inl, inr, arith, Bool-cases,
  Option-cases, Result-cases, ap, ◌∙◌,
}
use nono_py.Exec.Bootstrap.{ProxyOnlyPolicy}
use nono_py.Exec.Supervisor.{
  ChildMemory, Syscalls, Notif, Verdict, continued, refused_eacces, stale, denied, allow, Listener,
  reply, answer, handle_proxy_notification, Poll, interrupted, failed, not_ready, ready,
  service_notifications,
}
use nono_py.Exec.Supervisor.Readable.{AreDistinct, IsReadable, allow-IsReadable_iff}
use nono_py.Exec.Supervisor.Laws.{Permitted, allow-Permitted, Permitted-allow}

module _ (m : ChildMemory) (s : Syscalls) (policy : ProxyOnlyPolicy) where
  -- What becomes of a trapped call: it goes on, is refused, is no longer there, or is denied because
  -- an address of it cannot be read.
  pub data HasVerdict (l : Listener) (n : Notif) : Verdict → Type 0 where
    goes_on :
        IsReadable m s n
        → Permitted m s policy n
        → l.notif_id_valid n.id ≡ some true
        → l.continue_notif n.id ≡ true
        → HasVerdict l n continued
    is_refused :
        IsReadable m s n
        → ¬ Permitted m s policy n
        → l.notif_id_valid n.id ≡ some true
        → l.respond_errno n.id ≡ true
        → HasVerdict l n refused_eacces
    has_gone : IsReadable m s n → l.notif_id_valid n.id ≡ some false → HasVerdict l n stale
    is_denied : ¬ IsReadable m s n → HasVerdict l n denied

  -- The verdicts against the answers of `poll`: one for each notification that was ready, in order,
  -- up to the first answer that says nothing is ready.
  abbrev pub Served : Listener → List Poll → List Verdict → Type 0
  Served l [] vs = ⊥
  Served l (interrupted ∷ polls) vs = Served l polls vs
  Served l (failed ∷ polls) vs = ⊥
  Served l (not_ready ∷ polls) vs = vs ≡ []
  Served l (ready none ∷ polls) vs = ⊥
  Served l (ready (some n) ∷ polls) [] = ⊥
  Served l (ready (some n) ∷ polls) (v ∷ vs) = HasVerdict l n v × Served l polls vs

  module _ (d : AreDistinct s) where
    readable : (n : Notif) (a : Bool) → allow m s policy n ≡ some a → IsReadable m s n
    readable n a e = (allow-IsReadable_iff m s policy d n).0 (rw e refl)

    forbids : (n : Notif) → allow m s policy n ≡ some false → ¬ Permitted m s policy n
    forbids n e p = let q = Permitted-allow m s policy d n p in cc (e, q)

    reply-HasVerdict :
        (l : Listener) (n : Notif) (a : Bool) (v : Verdict)
        → allow m s policy n ≡ some a
        → l.notif_id_valid n.id ≡ some true
        → reply l n a ≡ ok v
        → HasVerdict l n v
    reply-HasVerdict l n true v e z h = elim (Bool-cases (l.continue_notif n.id)) [
      | inr k ↦ absurd (ground arith)
      | inl k ↦
          let same : continued ≡ v = cc (rw k at h) in
          rw (← same) (goes_on (readable n true e) (allow-Permitted m s policy n e) z k)
    ]
    reply-HasVerdict l n false v e z h = elim (Bool-cases (l.respond_errno n.id)) [
      | inr k ↦ absurd (ground arith)
      | inl k ↦
          let same : refused_eacces ≡ v = cc (rw k at h) in
          rw (← same) (is_refused (readable n false e) (forbids n e) z k)
    ]

    answer-HasVerdict :
        (l : Listener) (n : Notif) (a : Option Bool) (v : Verdict)
        → allow m s policy n ≡ a
        → answer l n a ≡ ok v
        → HasVerdict l n v
    unfolding answer
    answer-HasVerdict l n none v e h =
        let same : denied ≡ v = cc h in
        rw (← same) (
          is_denied
            (λ r. let q = (allow-IsReadable_iff m s policy d n).1 r in absurd (cc (rw e at q))))
    answer-HasVerdict l n (some a) v e h = elim (Option-cases (l.notif_id_valid n.id)) [
      | inl z ↦ absurd (ground arith)
      | inr (true, z) ↦ reply-HasVerdict l n a v e z (rw (answer, z) at h)
      | inr (false, z) ↦
          let same : stale ≡ v = cc (rw (answer, z) at h) in
          rw (← same) (has_gone (readable n a e) z)
    ]

    handle-HasVerdict :
        (l : Listener) (n : Notif) (v : Verdict)
        → handle_proxy_notification m s policy l (some n) ≡ ok v
        → HasVerdict l n v
    unfolding handle_proxy_notification
    handle-HasVerdict l n v h = answer-HasVerdict l n (allow m s policy n) v refl h

    ready_parts :
        (l : Listener) (n : Notif) (polls : List Poll) (vs : List Verdict)
        → service_notifications m s policy l (ready (some n) ∷ polls) ≡ some (ok vs)
        → (v : Verdict) × (rest : List Verdict) × (handle_proxy_notification m s policy l (some n)
            ≡ ok v)
          × (service_notifications m s policy l polls ≡ some (ok rest))
          × (vs ≡ v ∷ rest)
    unfolding service_notifications
    ready_parts l n polls vs h =
        elim (Result-cases (handle_proxy_notification m s policy l (some n))) [
          | inr (e, z) ↦ absurd (ground arith)
          | inl (v, z) ↦ elim (Option-cases (service_notifications m s policy l polls)) [
            | inl y ↦ absurd (ground arith)
            | inr (r, y) ↦ elim (Result-cases r) [
              | inr (e, x) ↦ absurd (ground arith)
              | inl (rest, x) ↦ (v, rest, z, y ∙ ap some x, ground arith)
            ]
          ]
        ]

    -- Serving the listener leaves every notification, up to the first answer that nothing is
    -- ready, with its verdict, in order, each exactly in its case: the call goes on if its
    -- addresses can be read, it is permitted, still valid and the reply is taken; it gets the
    -- error if its addresses can be read, it is not permitted, still valid and the reply is taken;
    -- it is left alone if its addresses can be read and it is no longer valid; and it is denied
    -- without a look at its validity if an address of it cannot be read.
    pub service_notifications-Served :
        (l : Listener) (polls : List Poll) (vs : List Verdict)
        → service_notifications m s policy l polls ≡ some (ok vs)
        → Served l polls vs
    unfolding service_notifications
    service_notifications-Served l [] vs h = absurd (cc)
    service_notifications-Served l (interrupted ∷ polls) vs h =
        service_notifications-Served l polls vs h
    service_notifications-Served l (failed ∷ polls) vs h = absurd (cc)
    service_notifications-Served l (not_ready ∷ polls) vs h = ground arith
    service_notifications-Served l (ready none ∷ polls) vs h =
        absurd (unfold handle_proxy_notification in cc h)
    service_notifications-Served l (ready (some n) ∷ polls) vs h =
        let (v, rest, e, f, same) = ready_parts l n polls vs h in
        rw same (handle-HasVerdict l n v e, service_notifications-Served l polls rest f)
