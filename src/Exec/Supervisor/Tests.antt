-- ===== src/Exec/Supervisor/Tests.antt =====
-- A child with a few addresses in its memory, and the instances of the theorems.
use nono_py.Common.{
  ℕ, Bool, true, false, List, [], ◌∷◌, Option, none, some, Result, ok, ◌≡◌, refl, ◌↔◌, ◌==◌,
  if◌then◌else◌, arith,
}
use nono_py.Exec.Bootstrap.{ProxyOnlyPolicy}
use nono_py.Exec.Supervisor.{
  SockAddr, ChildMemory, Syscalls, Notif, SupervisorError, Verdict, continued, refused_eacces,
  denied, Listener, Poll, ready, not_ready, interrupted, sockaddr_allowed, dest_allowed, all_dests,
  allow, answer, handle_proxy_notification, service_notifications,
}
use nono_py.Exec.Supervisor.Laws.{Permitted, handle-continued_iff}
use nono_py.Exec.Supervisor.Readable.{AreDistinct}
use nono_py.Exec.Supervisor.Verdicts.{Served, service_notifications-Served}

supervisor_functions : Unit {0}
unfolding service_notifications handle_proxy_notification answer allow all_dests dest_allowed
    sockaddr_allowed
supervisor_functions = tt

abbrev addr : ℕ → Bool → Option SockAddr
addr p l = some (record { port = p; is_loopback = l })

-- The proxy's address stands at 10, another host's at 20, a port to listen on at 30.
abbrev memory : ChildMemory
memory = record {
  read_notif_sockaddr = λ pid ptr len.
      if ptr == 10
      then addr 8080 true
      else if ptr == 20
      then addr 8080 false
      else if ptr == 30
      then addr 9000 true
      else none;
  read_msghdr_dest = λ pid ptr. some (some (ptr, 16));
  read_mmsghdr_dests = λ pid ptr vlen. some (some (10, 16) ∷ none ∷ some (ptr, 16) ∷ []);
}

abbrev x86_64 : Syscalls
x86_64 = record {
  sys_connect = 42;
  sys_bind = 49;
  sys_sendto = 44;
  sys_sendmsg = 46;
  sys_sendmmsg = 307;
}

x86_64-AreDistinct : AreDistinct x86_64
x86_64-AreDistinct = record {
  bind_connect = omega arith;
  sendto_connect = omega arith;
  sendto_bind = omega arith;
  sendmsg_connect = omega arith;
  sendmsg_bind = omega arith;
  sendmsg_sendto = omega arith;
  sendmmsg_connect = omega arith;
  sendmmsg_bind = omega arith;
  sendmmsg_sendto = omega arith;
  sendmmsg_sendmsg = omega arith;
}

abbrev through : ProxyOnlyPolicy
through = record { proxy_port = 8080; bind_ports = 9000 ∷ [] }

abbrev listener : Listener
listener = record {
  notif_id_valid = λ id. some true;
  continue_notif = λ id. true;
  respond_errno = λ id. true;
}

abbrev call : ℕ → ℕ → Notif
call nr ptr = record { id = 1; pid = 77; nr = nr; arg1 = ptr; arg2 = 16; arg4 = ptr; arg5 = 16 }

abbrev verdict_of : ℕ → ℕ → Result SupervisorError Verdict
verdict_of nr ptr = handle_proxy_notification memory x86_64 through listener (some (call nr ptr))

verdicts :
    (verdict_of 42 10 ≡ ok continued)
    × (verdict_of 42 20 ≡ ok refused_eacces)
    × (verdict_of 42 99 ≡ ok denied)
    × (verdict_of 49 30 ≡ ok continued)
    × (verdict_of 49 10 ≡ ok refused_eacces)
    × (verdict_of 44 0 ≡ ok continued)
    × (verdict_of 307 10 ≡ ok continued)
    × (verdict_of 307 20 ≡ ok refused_eacces)
    × (verdict_of 1 10 ≡ ok refused_eacces)
unfolding supervisor_functions
verdicts = (refl, refl, refl, refl, refl, refl, refl, refl, refl)

abbrev polls : List Poll
polls = ready (some (call 42 10)) ∷ interrupted ∷ ready (some (call 42 20)) ∷ not_ready ∷ []

served :
    service_notifications memory x86_64 through listener polls
    ≡ some (ok (continued ∷ refused_eacces ∷ []))
unfolding supervisor_functions
served = refl

handle-continued_iff_example : (verdict_of 42 10 ≡ ok continued) ↔ (
    Permitted memory x86_64 through (call 42 10)
    × (listener.notif_id_valid 1 ≡ some true)
    × (listener.continue_notif 1 ≡ true))
handle-continued_iff_example =
    handle-continued_iff memory x86_64 through x86_64-AreDistinct listener (call 42 10)

service_notifications-Served_example :
    Served memory x86_64 through listener polls (continued ∷ refused_eacces ∷ [])
service_notifications-Served_example =
    service_notifications-Served memory x86_64 through x86_64-AreDistinct listener polls
      (continued ∷ refused_eacces ∷ []) served
