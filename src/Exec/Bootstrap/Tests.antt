-- ===== src/Exec/Bootstrap/Tests.antt =====
-- A host with an old kernel, and the instances of the theorems.
use nono_py.Common.{
  ℕ, ◌≤◌, codes, bytes_eq, true, false, [], ◌∷◌, none, some, ok, err, ◌≡◌, refl, ◌≢◌, ◌↔◌, ◌⊎◌,
  is_some,
}
use nono_py.Exec.Request.{NetworkMode, proxy_only, blocked}
use nono_py.Exec.Bootstrap.{
  Host, Prepared, present, not_present, clone_files, pidfd, after_ack, bad_handoff,
  proxy_only_policy, read_handoff, read_fault, prepare_for, prepare_linux_proxy_bootstrap,
  thread_guard, create_proxy_supervisor_pair,
}
use nono_py.Exec.Bootstrap.Laws.{create_proxy_supervisor_pair_iff}

bootstrap_functions : Unit {0}
unfolding proxy_only_policy read_handoff read_fault prepare_for prepare_linux_proxy_bootstrap
    thread_guard create_proxy_supervisor_pair bytes_eq
bootstrap_functions = tt

abbrev old_kernel : Host ℕ
old_kernel = record {
  handoff_var = not_present;
  fault_var = present (codes "after_ack");
  detect_abi = some false;
  prepare_seccomp = some 7;
  thread_count = some 400;
  socket_pair = some true;
}

abbrev through_proxy : NetworkMode
through_proxy = proxy_only 8080 (9000 ∷ [])

abbrev cloning : Prepared ℕ
cloning = record {
  proxy_handoff = clone_files;
  prepared_landlock = some 7;
  prepared_proxy_filter = some true;
  clone_files_test_fault = after_ack;
}

prepared : prepare_linux_proxy_bootstrap old_kernel through_proxy ≡ ok cloning
unfolding bootstrap_functions
prepared = refl

guarded : thread_guard old_kernel cloning ≡ ok tt
unfolding bootstrap_functions
guarded = refl

paired : create_proxy_supervisor_pair old_kernel through_proxy cloning ≡ ok true
unfolding bootstrap_functions
paired = refl

bad_variable :
    prepare_linux_proxy_bootstrap
      (record old_kernel { handoff_var = present (codes "scm") })
      blocked
    ≡ err (bad_handoff (codes "scm"))
unfolding bootstrap_functions
bad_variable = refl

create_proxy_supervisor_pair_iff_example :
    ((true ≡ true) ↔ (
      (proxy_only_policy through_proxy ≢ none)
      × ((is_some cloning.prepared_proxy_filter ≡ true) ⊎ (cloning.proxy_handoff ≡ pidfd))))
    × (is_some cloning.prepared_proxy_filter ≡ true → true ≡ true)
    × (is_some cloning.prepared_proxy_filter ≡ false
        → (n : ℕ) × (old_kernel.thread_count ≡ some n) × (n ≤ 32))
create_proxy_supervisor_pair_iff_example =
    create_proxy_supervisor_pair_iff old_kernel through_proxy cloning true prepared guarded paired
