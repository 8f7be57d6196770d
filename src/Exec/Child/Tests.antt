-- ===== src/Exec/Child/Tests.antt =====
-- Children on both paths, and the instances of the theorems.
use nono_py.Common.{Bool, true, false, [], ◌∷◌, ◌≡◌, refl, ◌≢◌, ◌↔◌}
use nono_py.Exec.Bootstrap.{no_fault}
use nono_py.Exec.Request.{auto, landlock}
use nono_py.Exec.Child.{
  Step, own_group, close_read_ends, wire_stdio, scrub_fds, set_limits, change_dir, drop_ids,
  apply_sandbox, install_fallback, parts_present, die_with_parent, install_filter, report_listener,
  detach_fds, send_detached, await_ack, restore_mask, exec, replaced, died, run, ForkChild,
  CloneChild, child_process, child_process_clone_files,
}
use nono_py.Exec.Child.Laws.{child_process-replaced_iff, child_process_clone_files-replaced_iff}

abbrev all_well : Step → Bool
all_well s = true

abbrev no_sandbox : Step → Bool
no_sandbox apply_sandbox = false
no_sandbox _ = true

abbrev fork_child : ForkChild
fork_child = record { has_pair = true; has_cwd = false; mode = auto }

abbrev clone_child : CloneChild
clone_child = record { has_cwd = true; fault = no_fault }

runs :
    ((run all_well (child_process fork_child)).1 ≡ replaced)
    × ((run no_sandbox (child_process fork_child)).1 ≡ died 126 apply_sandbox)
    × ((run all_well (child_process_clone_files clone_child)).1 ≡ replaced)
    × ((run all_well (child_process (record fork_child { mode = landlock; has_pair = false }))).0
        ≡ own_group ∷ close_read_ends ∷ wire_stdio ∷ scrub_fds ∷ set_limits ∷ drop_ids
          ∷ apply_sandbox ∷ exec ∷ [])
unfolding run child_process child_process_clone_files
runs = (refl, refl, refl, refl)

child_process-replaced_iff_example : ((run all_well (child_process fork_child)).1 ≡ replaced) ↔ (
    ((all_well scrub_fds ≡ true)
      × (all_well set_limits ≡ true)
      × (fork_child.has_cwd ≡ true → all_well change_dir ≡ true)
      × (all_well drop_ids ≡ true)
      × (all_well apply_sandbox ≡ true)
      × (fork_child.mode ≢ landlock → all_well install_fallback ≡ true))
    × (all_well exec ≡ true))
child_process-replaced_iff_example = child_process-replaced_iff all_well fork_child

child_process_clone_files-replaced_iff_example :
    ((run all_well (child_process_clone_files clone_child)).1 ≡ replaced) ↔ (
      ((clone_child.fault ≡ no_fault)
        × (all_well parts_present ≡ true)
        × (all_well die_with_parent ≡ true)
        × (all_well install_filter ≡ true)
        × (all_well report_listener ≡ true)
        × (all_well detach_fds ≡ true)
        × (all_well send_detached ≡ true)
        × (all_well await_ack ≡ true)
        × (all_well wire_stdio ≡ true)
        × (clone_child.has_cwd ≡ true → all_well change_dir ≡ true)
        × (all_well drop_ids ≡ true)
        × (all_well apply_sandbox ≡ true)
        × (all_well set_limits ≡ true)
        × (all_well scrub_fds ≡ true)
        × (all_well restore_mask ≡ true))
      × (all_well exec ≡ true))
child_process_clone_files-replaced_iff_example =
    child_process_clone_files-replaced_iff all_well clone_child
