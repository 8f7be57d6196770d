-- ===== src/Exec/Child/Laws.antt =====
-- The command starts only behind every protection, and in what order they come.
use nono_py.Common.{ℕ, Bool, true, List, [], ◌∷◌, ◌≡◌, ◌≢◌, ◌↔◌, ◌⊎◌, arith}
use nono_py.Exec.Bootstrap.{CloneFilesTestFault, no_fault}
use nono_py.Exec.Request.{EnforcementMode, auto, landlock}
use nono_py.Exec.Child.{
  Step, wire_stdio, scrub_fds, set_limits, change_dir, drop_ids, apply_sandbox, install_fallback,
  parts_present, die_with_parent, install_filter, report_listener, detach_fds, send_detached,
  await_ack, restore_mask, exec, Action, checked, unchecked, die, replaced, died, run, ForkChild,
  child_process, CloneChild, child_process_clone_files,
}

-- Every checked step succeeds and no fault is injected.
abbrev pub Passes : (Step → Bool) → List Action → Type 0
Passes ok [] = Unit
Passes ok (unchecked s ∷ actions) = Passes ok actions
Passes ok (checked s ∷ actions) = (ok s ≡ true) × Passes ok actions
Passes ok (die s ∷ actions) = ⊥

run-replaced :
    (ok : Step → Bool) (actions : List Action)
    → ((run ok actions).1 ≡ replaced) ↔ (Passes ok actions × (ok exec ≡ true))
unfolding run
run-replaced ok [] = ground arith
run-replaced ok (unchecked s ∷ actions) = run-replaced ok actions
run-replaced ok (checked s ∷ actions) = ground (arith, run-replaced ok actions)
run-replaced ok (die s ∷ actions) = ground arith

-- The code of a dead child: 127 if it was the exec that failed, 126 for any other step.
run-died :
    (ok : Step → Bool) (actions : List Action) (code : ℕ) (s : Step)
    → (run ok actions).1 ≡ died code s
    → ((code ≡ 127) × (s ≡ exec) × Passes ok actions) ⊎ (code ≡ 126)
unfolding run
run-died ok [] code s h = ground arith
run-died ok (unchecked t ∷ actions) code s h = run-died ok actions code s h
run-died ok (checked t ∷ actions) code s h = ground (arith, run-died ok actions code s)
run-died ok (die t ∷ actions) code s h = ground arith

abbrev ForkNeeds : (Step → Bool) → ForkChild → Type 0
ForkNeeds ok c =
    (ok scrub_fds ≡ true)
    × (ok set_limits ≡ true)
    × (c.has_cwd ≡ true → ok change_dir ≡ true)
    × (ok drop_ids ≡ true)
    × (ok apply_sandbox ≡ true)
    × (c.mode ≢ landlock → ok install_fallback ≡ true)

fork-Passes :
    (ok : Step → Bool) (pair cwd : Bool) (mode : EnforcementMode)
    → let c : ForkChild = record { has_pair = pair; has_cwd = cwd; mode = mode } in
      Passes ok (child_process c) ↔ ForkNeeds ok c
unfolding child_process
fork-Passes ok true true auto = ground arith
fork-Passes ok _ _ _ = ground arith

-- On the fork path the command starts exactly when none of these steps reports an error, and the exec
-- succeeds: the call that scrubs the inherited descriptors, setting the limits, changing the directory
-- if one is given, dropping the identity, applying the sandbox and, unless the mode is Landlock,
-- installing the proxy fallback. Of a step nothing is said but whether it reports an error; which
-- descriptors the scrub leaves open is no part of this.
pub child_process-replaced_iff :
    (ok : Step → Bool) (c : ForkChild)
    → ((run ok (child_process c)).1 ≡ replaced) ↔ (
        ((ok scrub_fds ≡ true)
          × (ok set_limits ≡ true)
          × (c.has_cwd ≡ true → ok change_dir ≡ true)
          × (ok drop_ids ≡ true)
          × (ok apply_sandbox ≡ true)
          × (c.mode ≢ landlock → ok install_fallback ≡ true))
        × (ok exec ≡ true))
child_process-replaced_iff ok c =
    let r = run-replaced ok (child_process c) in
    let f = fork-Passes ok c.has_pair c.has_cwd c.mode in
    ((λ h. let (p, e) = r.0 h in (f.0 p, e)), (λ h. r.1 (f.1 h.0, h.1)))

abbrev CloneNeeds : (Step → Bool) → CloneChild → Type 0
CloneNeeds ok c =
    (c.fault ≡ no_fault)
    × (ok parts_present ≡ true)
    × (ok die_with_parent ≡ true)
    × (ok install_filter ≡ true)
    × (ok report_listener ≡ true)
    × (ok detach_fds ≡ true)
    × (ok send_detached ≡ true)
    × (ok await_ack ≡ true)
    × (ok wire_stdio ≡ true)
    × (c.has_cwd ≡ true → ok change_dir ≡ true)
    × (ok drop_ids ≡ true)
    × (ok apply_sandbox ≡ true)
    × (ok set_limits ≡ true)
    × (ok scrub_fds ≡ true)
    × (ok restore_mask ≡ true)

clone-Passes :
    (ok : Step → Bool) (cwd : Bool) (fault : CloneFilesTestFault)
    → let c : CloneChild = record { has_cwd = cwd; fault = fault } in
      Passes ok (child_process_clone_files c) ↔ CloneNeeds ok c
unfolding child_process_clone_files
clone-Passes ok true no_fault = ground arith
clone-Passes ok _ _ = ground arith

-- On the clone path the command starts exactly when no fault is injected, the handshake goes through
-- to the parent's acknowledgement, the same protections as on the fork path are in place, and the
-- exec succeeds.
pub child_process_clone_files-replaced_iff :
    (ok : Step → Bool) (c : CloneChild)
    → ((run ok (child_process_clone_files c)).1 ≡ replaced) ↔ (
        ((c.fault ≡ no_fault)
          × (ok parts_present ≡ true)
          × (ok die_with_parent ≡ true)
          × (ok install_filter ≡ true)
          × (ok report_listener ≡ true)
          × (ok detach_fds ≡ true)
          × (ok send_detached ≡ true)
          × (ok await_ack ≡ true)
          × (ok wire_stdio ≡ true)
          × (c.has_cwd ≡ true → ok change_dir ≡ true)
          × (ok drop_ids ≡ true)
          × (ok apply_sandbox ≡ true)
          × (ok set_limits ≡ true)
          × (ok scrub_fds ≡ true)
          × (ok restore_mask ≡ true))
        × (ok exec ≡ true))
child_process_clone_files-replaced_iff ok c =
    let r = run-replaced ok (child_process_clone_files c) in
    let f = clone-Passes ok c.has_cwd c.fault in
    ((λ h. let (p, e) = r.0 h in (f.0 p, e)), (λ h. r.1 (f.1 h.0, h.1)))
