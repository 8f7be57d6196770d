-- ===== src/Audit/Decode/RoundTrip.antt =====
-- The dict of an event, read back.
use nono_py.Common.{
  ℕ, Bytes, codes, bytes_eq, Bool, ◌<◌, ◌^◌, Option, none, some, Result, ok, ◌>>=◌, ◌≡◌, refl,
  arith,
}
use nono_py.SortedMap.{lookup}
use nono_py.Audit.Event.{Event}
use nono_py.Audit.Dict.{
  PyValue, py_int, py_str, py_bool, PyDict, optional, mode_label, decision_label,
  auth_mechanism_label, auth_outcome_label, injection_mode_label, denial_category_label,
  audit_event_to_py_dict,
}
use nono_py.Audit.Decode.{
  AuditError, required, optional_item, as_text, as_number, as_bool, below, auth_mechanism_arms,
  auth_outcome_arms, injection_mode_arms, denial_category_arms, read_event,
}
use nono_py.Audit.Decode.Labels.{
  mode-label, decision-label, auth_mechanism-label, auth_outcome-label, injection_mode-label,
  denial_category-label, read_category, traverse, parse_optional-label, traverse_ok,
}

-- The ranges of `u64` and `u16`.
abbrev pub Fits : ℕ → Option ℕ → Type 0
Fits bound none = Unit
Fits bound (some n) = n < bound

pub record IsInRange {Rest : Type 0} (e : Event Rest) : Type 0 where
  pub timestamp : e.timestamp_unix_ms < 2 ^ 64
  pub port : Fits (2 ^ 16) e.port
  pub status : Fits (2 ^ 16) e.status

below_lem : (bound n : ℕ) → n < bound → below bound n ≡ some n
below_lem bound n h = ground arith

module _ {ℓ} {A : Type ℓ} (extract : PyValue → Option A) (dict : PyDict) (key : Bytes) where
  required-found :
      (v : PyValue) (a : A)
      → lookup key dict ≡ some v
      → extract v ≡ some a
      → required extract dict key ≡ ok a
  unfolding required
  required-found v a found read = rw (required, found) (rw read refl)

  optional-found :
      (v : PyValue) (o : Option A)
      → lookup key dict ≡ some v
      → extract v ≡ o
      → optional_item extract dict key ≡ o
  unfolding optional_item
  optional-found v o found read = rw (optional_item, found) read

number-optional :
    (bound : ℕ) (o : Option ℕ) → Fits bound o → as_number bound (optional py_int o) ≡ o
number-optional bound none h = refl
number-optional bound (some n) h = below_lem bound n h

text-optional : (o : Option Bytes) → as_text (optional py_str o) ≡ o
text-optional none = refl
text-optional (some s) = refl

bool-optional : (o : Option Bool) → as_bool (optional py_bool o) ≡ o
bool-optional none = refl
bool-optional (some b) = refl

-- The event as it comes back: without what the dict does not have, and with an error for the
-- category that has no arm.
unfoldable pub returned : {Rest : Type 0} → Rest → Event Rest → Result AuditError (Event Rest)
returned unset e = do
  category ← traverse read_category e.denial_category
  ok record e { denial_category = category; rest = unset }

pub read_event-audit_event_to_py_dict :
    {Rest : Type 0} (unset : Rest) (e : Event Rest)
    → IsInRange e
    → read_event unset (audit_event_to_py_dict e) ≡ returned unset e
unfolding read_event audit_event_to_py_dict lookup bytes_eq returned
read_event-audit_event_to_py_dict unset e r =
    let d = audit_event_to_py_dict e in
    rw
      (
        required-found (as_number (2 ^ 64)) d (codes "timestamp_unix_ms")
            (py_int e.timestamp_unix_ms) e.timestamp_unix_ms refl
            (below_lem (2 ^ 64) e.timestamp_unix_ms r.timestamp),
        required-found as_text d (codes "mode") (py_str (mode_label e.mode)) (mode_label e.mode)
            refl refl,
        mode-label e.mode (codes "mode"),
        required-found as_text d (codes "decision") (py_str (decision_label e.decision))
            (decision_label e.decision) refl refl,
        decision-label e.decision (codes "decision"),
        required-found as_text d (codes "target") (py_str e.target) e.target refl refl,
        parse_optional-label auth_mechanism_arms auth_mechanism_label ok d (codes "auth_mechanism")
            e.auth_mechanism (λ m. auth_mechanism-label m (codes "auth_mechanism")) refl,
        traverse_ok e.auth_mechanism,
        parse_optional-label auth_outcome_arms auth_outcome_label ok d (codes "auth_outcome")
            e.auth_outcome (λ m. auth_outcome-label m (codes "auth_outcome")) refl,
        traverse_ok e.auth_outcome,
        parse_optional-label injection_mode_arms injection_mode_label ok d (codes "injection_mode")
            e.injection_mode (λ m. injection_mode-label m (codes "injection_mode")) refl,
        traverse_ok e.injection_mode,
        parse_optional-label denial_category_arms denial_category_label read_category d
            (codes "denial_category") e.denial_category (λ m. denial_category-label m) refl,
        optional-found (as_number (2 ^ 16)) d (codes "port") (optional py_int e.port) e.port refl
            (number-optional (2 ^ 16) e.port r.port),
        optional-found as_text d (codes "method") (optional py_str e.method) e.method refl
            (text-optional e.method),
        optional-found as_text d (codes "path") (optional py_str e.path) e.path refl
            (text-optional e.path),
        optional-found (as_number (2 ^ 16)) d (codes "status") (optional py_int e.status) e.status
            refl (number-optional (2 ^ 16) e.status r.status),
        optional-found as_text d (codes "reason") (optional py_str e.reason) e.reason refl
            (text-optional e.reason),
        optional-found as_text d (codes "route_id") (optional py_str e.route_id) e.route_id refl
            (text-optional e.route_id),
        optional-found as_bool d (codes "managed_credential_active")
            (optional py_bool e.managed_credential_active) e.managed_credential_active refl
            (bool-optional e.managed_credential_active),
      )
      refl
