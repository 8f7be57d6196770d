-- ===== src/Exec/Child.antt =====
-- src/sandboxed_exec.rs: the child between the fork and the exec (`child_process` of the fork path,
-- `child_process_clone_files` of the clone path, in a debug build). The steps stand in the order of
-- the code; whether each succeeds is the environment's choice, and its answers to a step are the
-- same each time it is asked. A checked step that fails ends the child (`child_die`,
-- `child_die_raw`); the code does not look at the outcome of an unchecked one.
pub mod Laws
mod Tests
use nono_py.Common.{ℕ, Bool, true, false, List, [], ◌∷◌, ◌++◌, Option, none, some, if◌then◌else◌}
use nono_py.Exec.Bootstrap.{
  CloneFilesTestFault, no_fault, before_listener, after_listener, after_fd_report, after_unshare,
  after_detached, after_ack,
}
use nono_py.Exec.Request.{EnforcementMode, auto, landlock, seccomp}

pub data Step : Type 0 where
  own_group close_supervisor close_read_ends wire_stdio close_write_ends scrub_fds : Step
  set_limits change_dir drop_ids apply_sandbox install_fallback close_child_socket : Step
  parts_present die_with_parent install_filter report_listener detach_fds send_detached : Step
  await_ack restore_mask exec : Step
  injected_fault : CloneFilesTestFault → Step

pub data Action : Type 0 where
  checked unchecked : Step → Action
  -- the child dies here whatever the environment does
  die : Step → Action

pub data End : Type 0 where
  replaced : End
  died : ℕ → Step → End

-- The steps made and how the child ends: it becomes the command, or dies with a code.
unfoldable pub run : (Step → Bool) → List Action → List Step × End
run ok [] = if ok exec then (exec ∷ [], replaced) else (exec ∷ [], died 127 exec)
run ok (unchecked s ∷ actions) = let rest = run ok actions in (s ∷ rest.0, rest.1)
run ok (checked s ∷ actions) =
    let rest = run ok actions in if ok s then (s ∷ rest.0, rest.1) else (s ∷ [], died 126 s)
run ok (die s ∷ actions) = (s ∷ [], died 126 s)

abbrev pub when : Bool → Action → List Action
when true a = a ∷ []
when false a = []

pub record ForkChild : Type 0 where
  pub has_pair : Bool
  pub has_cwd : Bool
  pub mode : EnforcementMode

-- Landlock alone has no fallback to install.
abbrev pub falls_back : EnforcementMode → Bool
falls_back landlock = false
falls_back _ = true

unfoldable pub child_process : ForkChild → List Action
child_process c =
    unchecked own_group
    ∷ (when c.has_pair (unchecked close_supervisor)
        ++ (unchecked close_read_ends
            ∷ unchecked wire_stdio
            ∷ checked scrub_fds
            ∷ checked set_limits
            ∷ (when c.has_cwd (checked change_dir)
                ++ (checked drop_ids
                    ∷ checked apply_sandbox
                    ∷ (when (falls_back c.mode) (checked install_fallback)
                        ++ when c.has_pair (unchecked close_child_socket))))))

pub record CloneChild : Type 0 where
  pub has_cwd : Bool
  pub fault : CloneFilesTestFault

abbrev pub is_fault : CloneFilesTestFault → CloneFilesTestFault → Bool
is_fault before_listener before_listener = true
is_fault after_listener after_listener = true
is_fault after_fd_report after_fd_report = true
is_fault after_unshare after_unshare = true
is_fault after_detached after_detached = true
is_fault after_ack after_ack = true
is_fault _ _ = false

-- `if ctx.clone_files_test_fault == f { child_die_raw(…) }`
abbrev pub inject : CloneChild → CloneFilesTestFault → List Action
inject c f = when (is_fault c.fault f) (die (injected_fault f))

-- `parts_present` is the match on the supervisor pair, the prepared filter and the prepared policy.
unfoldable pub child_process_clone_files : CloneChild → List Action
child_process_clone_files c =
    checked parts_present
    ∷ checked die_with_parent
    ∷ unchecked own_group
    ∷ (inject c before_listener
        ++ (checked install_filter
            ∷ (inject c after_listener
                ++ (checked report_listener
                    ∷ (inject c after_fd_report
                        ++ (checked detach_fds
                            ∷ (inject c after_unshare
                                ++ (unchecked close_supervisor
                                    ∷ checked send_detached
                                    ∷ (inject c after_detached
                                        ++ (checked await_ack
                                            ∷ (inject c after_ack
                                                ++ (unchecked close_child_socket
                                                    ∷ unchecked close_read_ends
                                                    ∷ checked wire_stdio
                                                    ∷ unchecked close_write_ends
                                                    ∷ (when c.has_cwd (checked change_dir)
                                                        ++ (checked drop_ids
                                                            ∷ checked apply_sandbox
                                                            ∷ checked set_limits
                                                            ∷ checked scrub_fds
                                                            ∷ checked restore_mask
                                                            ∷ []))))))))))))))
