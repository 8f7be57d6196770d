-- ===== src/Audit/Session.antt =====
-- src/undo.rs: the network events of `SessionMetadata`.

pub mod Laws
mod Tests
use nono_py.Common.{List, [], ◌∷◌, map, Result, ok, err, ◌>>=◌}
use nono_py.Audit.Event.{Event}
use nono_py.Audit.Dict.{PyDict, audit_event_to_py_dict}
use nono_py.Audit.Decode.{AuditError, read_event}

-- The session by its events; `Other` is the rest of its fields.
pub record SessionMetadata (Rest Other : Type 0) : Type 0 where
  pub network_events : List (Event Rest)
  pub other : Other

unfoldable pub network_events : {Rest Other : Type 0} → SessionMetadata Rest Other → List PyDict
network_events session = map audit_event_to_py_dict session.network_events

-- The loop over the dicts.
unfoldable pub read_events :
    {Rest : Type 0} → Rest → List PyDict → Result AuditError (List (Event Rest))
read_events unset [] = ok []
read_events unset (dict ∷ dicts) = do
  event ← read_event unset dict
  events ← read_events unset dicts
  ok (event ∷ events)

-- The session as the call leaves it, and the error if there is one.
unfoldable pub set_network_events :
    {Rest Other : Type 0}
    → Rest
    → SessionMetadata Rest Other
    → List PyDict
    → SessionMetadata Rest Other × Result AuditError (Unit {0})
set_network_events unset session dicts = elim (read_events unset dicts) [
  | err e ↦ (session, err e)
  | ok events ↦ (record session { network_events = events }, ok tt)
]
