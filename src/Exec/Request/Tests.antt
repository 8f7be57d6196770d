-- ===== src/Exec/Request/Tests.antt =====
-- Requests that pass and fail, with numbers of tenths of a second from 100 on for the floats.
use nono_py.Common.{ℕ, codes, bytes_eq, [], ◌∷◌, none, some, ok, err, ◌≡◌, refl, ◌↔◌, ltb, ◌==◌}
use nono_py.Exec.Identity.{resolve_ids}
use nono_py.Exec.Request.{
  seccomp, proxy_only, bad_mode, bad_timeout, empty_command, landlock_proxy_only,
  parse_enforcement_mode, Float, Request, Checked, check_request,
}
use nono_py.Exec.Request.Laws.{IsSound, check_request_iff}

abbrev shifted : Float ℕ
shifted = record { is_negative = λ t. ltb t 100; is_nan = λ t. t == 9999 }

abbrev plain : Request ℕ
plain = record {
  command = codes "ls" ∷ [];
  timeout_secs = some 130;
  limits = record {
    max_cpu_seconds = none;
    max_file_size_bytes = some 0;
    max_processes = none;
    max_open_files = some 64;
  };
  uid = some 99;
  gid = none;
  enforcement_mode = codes "seccomp";
  network_mode = proxy_only 8080 [];
}

abbrev plain_checked : Checked
plain_checked = record { ids = record { uid = some 99; gid = some 99 }; mode = seccomp }

checks :
    (check_request shifted plain ≡ ok plain_checked)
    × (check_request shifted (record plain { timeout_secs = some 9999 }) ≡ err bad_timeout)
    × (check_request shifted (record plain { command = [] }) ≡ err empty_command)
    × (check_request shifted (record plain { enforcement_mode = codes "landlock" })
        ≡ err landlock_proxy_only)
    × (check_request shifted (record plain { enforcement_mode = codes "x" })
        ≡ err (bad_mode (codes "x")))
unfolding check_request resolve_ids parse_enforcement_mode bytes_eq
checks = (refl, refl, refl, refl, refl)

check_request_iff_example :
    (check_request shifted plain ≡ ok plain_checked) ↔ IsSound shifted plain plain_checked
check_request_iff_example = check_request_iff shifted plain plain_checked
