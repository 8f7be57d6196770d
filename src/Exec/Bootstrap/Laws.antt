-- ===== src/Exec/Bootstrap/Laws.antt =====
-- Which path a launch takes, and what it has on that path.
use nono_py.Common.{
  ℕ, ◌≤◌, is_empty, not, Bool, true, false, ◌&&◌, ◌||◌, List, Option, none, some, Result, ok, err,
  ◌>>=◌, >>=-eq-ok, ◌≡◌, refl, ◌≢◌, ◌↔◌, ◌⊎◌, inl, inr, arith, if◌then◌else◌, is_some, Option-cases,
  ◌∙◌, sym, ap,
}
use nono_py.Exec.Request.{NetworkMode, blocked, allow_all, proxy_only}
use nono_py.Exec.Bootstrap.{
  ProxyOnlyPolicy, ProxyHandoff, clone_files, pidfd, CloneFilesTestFault, BootstrapError,
  abi_failed, prepare_failed, pair_failed, cloexec_failed, proxy_only_policy, read_handoff,
  read_fault, Prepared, Host, or_error, is_pidfd, unprepared, prepare_for,
  prepare_linux_proxy_bootstrap, thread_guard, create_proxy_supervisor_pair,
}

or_error-eq-ok {ℓ} :
    {A : Type ℓ} (o : Option A) (e : BootstrapError) {a : A} → or_error o e ≡ ok a → o ≡ some a
or_error-eq-ok none e h = cc
or_error-eq-ok (some b) e h = cc

made_lem :
    (made : Option Bool) (b : Bool)
    → (or_error made pair_failed >>= λ p. if p then ok true else err cloexec_failed) ≡ ok b
    → b ≡ true
made_lem none b e = cc
made_lem (some true) b e = cc
made_lem (some false) b e = cc

pair_cases :
    (policy : Option ProxyOnlyPolicy) (filter : Option Bool) (handoff : ProxyHandoff)
    (made : Option Bool) (b : Bool)
    → (if not (is_some policy) || (not (is_some filter) && not (is_pidfd handoff))
        then ok false
        else (or_error made pair_failed >>= λ p. if p then ok true else err cloexec_failed))
      ≡ ok b
    → (b ≡ true) ↔ ((policy ≢ none) × ((is_some filter ≡ true) ⊎ (handoff ≡ pidfd)))
pair_cases none filter handoff made b e = ground arith
pair_cases (some policy) none clone_files made b e = ground arith
pair_cases (some policy) none pidfd made b e =
    ((λ _. ((λ n. cc), inr refl)), (λ _. made_lem made b e))
pair_cases (some policy) (some f) handoff made b e =
    ((λ _. ((λ n. cc), inl refl)), (λ _. made_lem made b e))

module _ {ℓ} {P : Type ℓ} (h : Host P) where
  -- A launch is prepared for the clone path with both parts, or with neither.
  pub record IsChosen (mode : NetworkMode) (ctx : Prepared P) : Type ℓ where
    pub handoff : read_handoff h.handoff_var ≡ ok ctx.proxy_handoff
    pub both : is_some ctx.prepared_landlock ≡ is_some ctx.prepared_proxy_filter
    pub clones : (is_some ctx.prepared_proxy_filter ≡ true) ↔ (
        (proxy_only_policy mode ≢ none)
        × (h.detect_abi ≡ some false)
        × (ctx.proxy_handoff ≡ clone_files))
    pub binds :
        (port : ℕ) (bind_ports : List ℕ) (flag : Bool)
        → mode ≡ proxy_only port bind_ports
        → ctx.prepared_proxy_filter ≡ some flag
        → flag ≡ not (is_empty bind_ports)

  unprepared-IsChosen :
      (mode : NetworkMode) (handoff : ProxyHandoff)
      → read_handoff h.handoff_var ≡ ok handoff
      → (proxy_only_policy mode ≢ none → h.detect_abi ≡ some false → handoff ≢ clone_files)
      → IsChosen mode (unprepared h handoff)
  unprepared-IsChosen mode handoff r n = record {
    handoff = r;
    both = refl;
    clones = ((λ e. absurd (cc)), (λ a. absurd (n a.0 a.1 a.2)));
    binds = λ port bind_ports flag e f. cc;
  }

  prepared-IsChosen :
      (port : ℕ) (bind_ports : List ℕ) (fault : CloneFilesTestFault) (landlock : P)
      (ctx : Prepared P)
      → read_handoff h.handoff_var ≡ ok clone_files
      → h.detect_abi ≡ some false
      → ◌≡◌ {A = Result BootstrapError (Prepared P)}
          (ok (record {
            proxy_handoff = clone_files;
            prepared_landlock = some landlock;
            prepared_proxy_filter = some (not (is_empty bind_ports));
            clone_files_test_fault = fault;
          }))
          (ok ctx)
      → IsChosen (proxy_only port bind_ports) ctx
  unfolding proxy_only_policy
  prepared-IsChosen port bind_ports fault landlock ctx r abi e =
      let same_handoff : clone_files ≡ ctx.proxy_handoff = ground arith in
      let same_filter : some (not (is_empty bind_ports)) ≡ ctx.prepared_proxy_filter =
        ground arith in
      let same_landlock : some landlock ≡ ctx.prepared_landlock = ground arith in
      record {
        handoff = r ∙ ap ok same_handoff;
        both = rw (← same_filter, ← same_landlock) refl;
        clones = ((λ _. ((λ n. cc), abi, sym same_handoff)), (λ _. rw (← same_filter) refl));
        binds = λ p b flag m f. ground arith;
      }

  prepare_for_abi :
      (handoff : ProxyHandoff) (policy : ProxyOnlyPolicy) (ctx : Prepared P)
      → prepare_for h handoff policy ≡ ok ctx
      → (net : Bool) × (h.detect_abi ≡ some net)
  unfolding prepare_for
  prepare_for_abi handoff policy ctx e =
      let (net, abi, _) = >>=-eq-ok (or_error h.detect_abi abi_failed) _ e in
      (net, or_error-eq-ok h.detect_abi abi_failed abi)

  handoff_of :
      (mode : NetworkMode) (ctx : Prepared P)
      → prepare_linux_proxy_bootstrap h mode ≡ ok ctx
      → (handoff : ProxyHandoff) × (read_handoff h.handoff_var ≡ ok handoff)
  unfolding prepare_linux_proxy_bootstrap
  handoff_of mode ctx e =
      let (handoff, r, _) = >>=-eq-ok (read_handoff h.handoff_var) _ e in (handoff, r)

  threads :
      (ctx : Prepared P)
      → is_some ctx.prepared_proxy_filter ≡ false
      → thread_guard h ctx ≡ ok tt
      → (n : ℕ) × (h.thread_count ≡ some n) × (n ≤ 32)
  unfolding thread_guard
  threads ctx f e = elim (Option-cases h.thread_count) [
    | inl none_known ↦ absurd (ground arith)
    | inr (n, known) ↦ (n, known, ground arith)
  ]

  prepare_clone-IsChosen :
      (port : ℕ) (bind_ports : List ℕ) (ctx : Prepared P)
      → read_handoff h.handoff_var ≡ ok clone_files
      → h.detect_abi ≡ some false
      → prepare_for h clone_files (record { proxy_port = port; bind_ports = bind_ports }) ≡ ok ctx
      → IsChosen (proxy_only port bind_ports) ctx
  unfolding prepare_for proxy_only_policy
  prepare_clone-IsChosen port bind_ports ctx r abi e =
      let e1 = rw abi at e in
      let (fault, f, e2) = >>=-eq-ok (read_fault h.fault_var) _ e1 in
      let (landlock, l, e3) = >>=-eq-ok (or_error h.prepare_seccomp prepare_failed) _ e2 in
      prepared-IsChosen port bind_ports fault landlock ctx r abi e3

  prepare_for-IsChosen :
      (handoff : ProxyHandoff) (port : ℕ) (bind_ports : List ℕ) (net : Bool) (ctx : Prepared P)
      → read_handoff h.handoff_var ≡ ok handoff
      → h.detect_abi ≡ some net
      → prepare_for h handoff (record { proxy_port = port; bind_ports = bind_ports }) ≡ ok ctx
      → IsChosen (proxy_only port bind_ports) ctx
  prepare_for-IsChosen handoff port bind_ports true ctx r abi e =
      let same : unprepared h handoff ≡ ctx =
        unfold prepare_for in (let e1 = rw abi at e in cc e1) in
      rw (← same) (unprepared-IsChosen (proxy_only port bind_ports) handoff r (λ _ a _. cc))
  prepare_for-IsChosen pidfd port bind_ports false ctx r abi e =
      let same : unprepared h pidfd ≡ ctx = unfold prepare_for in (let e1 = rw abi at e in cc e1) in
      rw (← same) (unprepared-IsChosen (proxy_only port bind_ports) pidfd r (λ _ _ c. cc))
  prepare_for-IsChosen clone_files port bind_ports false ctx r abi e =
      prepare_clone-IsChosen port bind_ports ctx r abi e

  prepare_mode-IsChosen :
      (mode : NetworkMode) (handoff : ProxyHandoff) (ctx : Prepared P)
      → read_handoff h.handoff_var ≡ ok handoff
      → prepare_linux_proxy_bootstrap h mode ≡ ok ctx
      → IsChosen mode ctx
  unfolding prepare_linux_proxy_bootstrap proxy_only_policy
  prepare_mode-IsChosen blocked handoff ctx r e =
      let e1 = rw r at e in
      let same : unprepared h handoff ≡ ctx = cc e1 in
      rw (← same) (unprepared-IsChosen blocked handoff r (λ n. absurd (n refl)))
  prepare_mode-IsChosen allow_all handoff ctx r e =
      let e1 = rw r at e in
      let same : unprepared h handoff ≡ ctx = cc e1 in
      rw (← same) (unprepared-IsChosen allow_all handoff r (λ n. absurd (n refl)))
  prepare_mode-IsChosen (proxy_only port bind_ports) handoff ctx r e =
      let e1 = rw r at e in
      let (net, abi) = prepare_for_abi handoff _ ctx e1 in
      prepare_for-IsChosen handoff port bind_ports net ctx r abi e1

  pub prepare_linux_proxy_bootstrap-IsChosen :
      (mode : NetworkMode) (ctx : Prepared P)
      → prepare_linux_proxy_bootstrap h mode ≡ ok ctx
      → IsChosen mode ctx
  prepare_linux_proxy_bootstrap-IsChosen mode ctx e =
      let (handoff, r) = handoff_of mode ctx e in prepare_mode-IsChosen mode handoff ctx r e

  pair_lem :
      (mode : NetworkMode) (ctx : Prepared P) (b : Bool)
      → create_proxy_supervisor_pair h mode ctx ≡ ok b
      → (b ≡ true) ↔ (
          (proxy_only_policy mode ≢ none)
          × ((is_some ctx.prepared_proxy_filter ≡ true) ⊎ (ctx.proxy_handoff ≡ pidfd)))
  unfolding create_proxy_supervisor_pair
  pair_lem mode ctx b e =
      pair_cases (proxy_only_policy mode) ctx.prepared_proxy_filter ctx.proxy_handoff h.socket_pair
        b e

  -- Of a prepared launch: a supervisor pair is made exactly when the mode is proxy-only and either
  -- the clone path was prepared or the pidfd handoff was asked for; so a launch on the clone path
  -- never lacks its supervisor socket. And the number of threads is bounded by 32 unless the launch
  -- takes the clone path.
  pub create_proxy_supervisor_pair_iff :
      (mode : NetworkMode) (ctx : Prepared P) (b : Bool)
      → prepare_linux_proxy_bootstrap h mode ≡ ok ctx
      → thread_guard h ctx ≡ ok tt
      → create_proxy_supervisor_pair h mode ctx ≡ ok b
      → ((b ≡ true) ↔ (
          (proxy_only_policy mode ≢ none)
          × ((is_some ctx.prepared_proxy_filter ≡ true) ⊎ (ctx.proxy_handoff ≡ pidfd))))
        × (is_some ctx.prepared_proxy_filter ≡ true → b ≡ true)
        × (is_some ctx.prepared_proxy_filter ≡ false
            → (n : ℕ) × (h.thread_count ≡ some n) × (n ≤ 32))
  create_proxy_supervisor_pair_iff mode ctx b e t p =
      let c = prepare_linux_proxy_bootstrap-IsChosen mode ctx e in
      let pair = pair_lem mode ctx b p in
      (pair, (λ f. pair.1 ((c.clones.0 f).0, inl f)), (λ f. threads ctx f t))
