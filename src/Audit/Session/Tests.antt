-- ===== src/Audit/Session/Tests.antt =====
-- Two events, the second denied for an unsupported upgrade, and dicts that are not those of events.
use nono_py.Common.{
  ℕ, codes, bytes_eq, true, false, all, All, [], ◌∷◌, map, none, some, ok, err, ◌≡◌, refl,
  if◌then◌else◌, arith,
}
use nono_py.SortedMap.{lookup}
use nono_py.Audit.Event.{
  Event, reverse, deny, phantom_header, failed, url_path, host_denied, unsupported_upgrade,
}
use nono_py.Audit.Dict.{py_str, py_bool, py_none, audit_event_to_py_dict}
use nono_py.Audit.Decode.{
  invalid, missing, wrong_type, required, optional_item, parse_label, parse_optional, read_event,
}
use nono_py.Audit.Decode.RoundTrip.{IsInRange}
use nono_py.Audit.Session.{SessionMetadata, network_events, read_events, set_network_events}
use nono_py.Audit.Session.Laws.{
  is_readable, stripped, unreadable, set_network_events-network_events,
}

abbrev event : Event ℕ
event = record {
  timestamp_unix_ms = 1700000000000;
  mode = reverse;
  decision = deny;
  target = codes "api.io";
  port = some 443;
  method = some (codes "GET");
  path = none;
  status = some 403;
  reason = none;
  route_id = some (codes "api");
  auth_mechanism = some phantom_header;
  auth_outcome = some failed;
  managed_credential_active = some false;
  injection_mode = some url_path;
  denial_category = some host_denied;
  rest = 7;
}

abbrev upgraded : Event ℕ
upgraded = record event { denial_category = some unsupported_upgrade }

abbrev empty_session : SessionMetadata ℕ ℕ
empty_session = record { network_events = []; other = 1 }

abbrev source : SessionMetadata ℕ ℕ
source = record { network_events = event ∷ upgraded ∷ []; other = 2 }

set_functions : Unit {0}
unfolding set_network_events network_events read_events read_event required optional_item
    parse_label parse_optional audit_event_to_py_dict lookup bytes_eq
set_functions = tt

copied :
    set_network_events 0 empty_session
      (network_events (record source { network_events = event ∷ [] }))
    ≡ (record empty_session { network_events = record event { rest = 0 } ∷ [] }, ok tt)
unfolding set_functions
copied = refl

refused :
    ((set_network_events 0 source ([] ∷ [])).1 ≡ err (missing (codes "timestamp_unix_ms")))
    × ((set_network_events 0 source (((codes "timestamp_unix_ms", py_none) ∷ []) ∷ [])).1
        ≡ err (wrong_type (codes "timestamp_unix_ms")))
    × ((set_network_events 0 source (
          ((codes "timestamp_unix_ms", py_bool true) ∷ (codes "mode", py_str (codes "x")) ∷ [])
          ∷ [])).1
        ≡ err (invalid (codes "mode") (codes "x")))
unfolding set_functions
refused = (refl, refl, refl)

in_range : All IsInRange source.network_events
in_range = (omega arith, (omega arith, tt))

set_network_events-network_events_example :
    set_network_events 0 empty_session (network_events source) ≡ (
      if all is_readable source.network_events
      then (record empty_session { network_events = map (stripped 0) source.network_events }, ok tt)
      else (empty_session, err unreadable))
set_network_events-network_events_example =
    set_network_events-network_events 0 empty_session source in_range
