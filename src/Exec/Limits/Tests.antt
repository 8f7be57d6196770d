-- ===== src/Exec/Limits/Tests.antt =====
-- A table of limits as the kernel, and the instances of the theorems.
use nono_py.Common.{ℕ, Option, none, some, ok, ◌≡◌, ◌≢◌, refl, arith}
use nono_py.Exec.Limits.{
  Resource, cpu, fsize, nproc, nofile, LimitRequest, apply_resource_limits, set_limit, set_rlimit,
  clamp_rlim, apply_resource_limits_raw,
}
use nono_py.Exec.Limits.Laws.{succeeded, apply_resource_limits_raw_lem, SetsOne}

record Table : Type 0 where
  cpu_limit : ℕ
  fsize_limit : ℕ
  nproc_limit : ℕ
  nofile_limit : ℕ

abbrev set_table : Resource → ℕ → Table → Option Table
set_table cpu v t = some (record t { cpu_limit = v })
set_table fsize v t = some (record t { fsize_limit = v })
set_table nproc v t = some (record t { nproc_limit = v })
set_table nofile v t = some (record t { nofile_limit = v })

abbrev get_table : Resource → Table → ℕ
get_table cpu t = t.cpu_limit
get_table fsize t = t.fsize_limit
get_table nproc t = t.nproc_limit
get_table nofile t = t.nofile_limit

table_sets : (r : Resource) (v : ℕ) (l l' : Table) → set_table r v l ≡ some l' → get_table r l' ≡ v
table_sets cpu v l l' h = ground arith
table_sets fsize v l l' h = ground arith
table_sets nproc v l l' h = ground arith
table_sets nofile v l l' h = ground arith

table_keeps :
    (r s : Resource) (v : ℕ) (l l' : Table)
    → set_table r v l ≡ some l'
    → s ≢ r
    → get_table s l' ≡ get_table s l
table_keeps cpu s v l l' h n = ground arith
table_keeps fsize s v l l' h n = ground arith
table_keeps nproc s v l l' h n = ground arith
table_keeps nofile s v l l' h n = ground arith

table-SetsOne : SetsOne set_table get_table
table-SetsOne = record { sets = table_sets; keeps = table_keeps }

abbrev full : Table
full = record { cpu_limit = 1000; fsize_limit = 1000; nproc_limit = 1000; nofile_limit = 1000 }

abbrev ask : LimitRequest
ask = record {
  max_cpu_seconds = some 5;
  max_file_size_bytes = some 0;
  max_processes = none;
  max_open_files = some 64;
}

abbrev reduced : Table
reduced = record { cpu_limit = 5; fsize_limit = 0; nproc_limit = 1000; nofile_limit = 64 }

applied : apply_resource_limits set_table ask full ≡ ok reduced
unfolding apply_resource_limits set_limit set_rlimit clamp_rlim
applied = refl

apply_resource_limits_raw_lem_example :
    apply_resource_limits_raw set_table ask full
    ≡ succeeded (apply_resource_limits set_table ask full)
apply_resource_limits_raw_lem_example = apply_resource_limits_raw_lem set_table ask full
