-- ===== src/Audit/Decode.antt =====
-- src/undo.rs: how `set_network_events` reads one dict. A key that is not there, or a value of
-- another type, is an error for the first four fields and `None` for the others.

pub mod Labels
pub mod RoundTrip
use nono_py.Common.{
  ℕ, Bytes, codes, bytes_eq, Bool, ltb, List, [], ◌∷◌, Option, none, some, Result, ok, err, ◌>>=◌,
  if◌then◌else◌, ◌^◌,
}
use nono_py.SortedMap.{Pairs, lookup}
use nono_py.Audit.Event.{
  Mode, connect, connect_intercept, reverse, external, Decision, allow, deny, approve_requested,
  approve_granted, approve_denied, approve_timeout, approve_error, AuthMechanism,
  proxy_authorization, phantom_header, phantom_path, phantom_query, spiffe_jwt_bearer,
  spiffe_oauth_assertion, AuthOutcome, succeeded, failed, InjectionMode, header, url_path,
  query_param, basic_auth, oauth2, spiffe_jwt, DenialCategory, authentication_failed,
  endpoint_policy, managed_credential_unavailable, host_denied, intercept_handshake_failed,
  upstream_connect_failed, connect_bypasses_l7, external_proxy_rejected, Event,
}
use nono_py.Audit.Dict.{PyValue, py_none, py_other, py_bool, py_int, py_negative, py_str, PyDict}

-- `ValueError`s with the name of the field, the text of the bad value beside it, and the `TypeError`
-- or `OverflowError` of a failed extraction.
pub data AuditError : Type 0 where
  missing wrong_type : Bytes → AuditError
  invalid : Bytes → Bytes → AuditError

-- `extract`: for `String`, for an unsigned integer below a bound (a `bool` is an integer too), and
-- for `bool`.
abbrev pub as_text : PyValue → Option Bytes
as_text (py_str s) = some s
as_text _ = none

abbrev pub below : ℕ → ℕ → Option ℕ
below bound n = if ltb n bound then some n else none

abbrev pub as_number : ℕ → PyValue → Option ℕ
as_number bound (py_int n) = below bound n
as_number bound (py_bool b) = below bound (if b then 1 else 0)
as_number bound _ = none

abbrev pub as_bool : PyValue → Option Bool
as_bool (py_bool b) = some b
as_bool _ = none

-- `get_item(key)?.ok_or_else(…)?.extract()?`
unfoldable pub required {ℓ} :
    {A : Type ℓ} → (PyValue → Option A) → PyDict → Bytes → Result AuditError A
required extract dict key = elim (lookup key dict) [
  | none ↦ err (missing key)
  | some v ↦ elim (extract v) [ none ↦ err (wrong_type key) | some a ↦ ok a ]
]

-- `get_item(key)?.and_then(|v| v.extract().ok())`
unfoldable pub optional_item {ℓ} : {A : Type ℓ} → (PyValue → Option A) → PyDict → Bytes → Option A
optional_item extract dict key = elim (lookup key dict) [ none ↦ none | some v ↦ extract v ]

-- A `match` on the text of a field, its arms in order.
unfoldable pub parse_label {ℓ} : {A : Type ℓ} → Pairs A → Bytes → Bytes → Result AuditError A
parse_label arms field s = elim (lookup s arms) [ none ↦ err (invalid field s) | some a ↦ ok a ]

-- `.map(|s| match …).transpose()?`
unfoldable pub parse_optional {ℓ} :
    {A : Type ℓ} → Pairs A → PyDict → Bytes → Result AuditError (Option A)
parse_optional arms dict key = elim (optional_item as_text dict key) [
  | none ↦ ok none
  | some s ↦ do a ← parse_label arms key s; ok (some a)
]

abbrev pub mode_arms : Pairs Mode
mode_arms =
    (codes "connect", connect)
    ∷ (codes "connect_intercept", connect_intercept)
    ∷ (codes "reverse", reverse)
    ∷ (codes "external", external)
    ∷ []

abbrev pub decision_arms : Pairs Decision
decision_arms =
    (codes "allow", allow)
    ∷ (codes "deny", deny)
    ∷ (codes "approve_requested", approve_requested)
    ∷ (codes "approve_granted", approve_granted)
    ∷ (codes "approve_denied", approve_denied)
    ∷ (codes "approve_timeout", approve_timeout)
    ∷ (codes "approve_error", approve_error)
    ∷ []

abbrev pub auth_mechanism_arms : Pairs AuthMechanism
auth_mechanism_arms =
    (codes "proxy_authorization", proxy_authorization)
    ∷ (codes "phantom_header", phantom_header)
    ∷ (codes "phantom_path", phantom_path)
    ∷ (codes "phantom_query", phantom_query)
    ∷ (codes "spiffe_jwt_bearer", spiffe_jwt_bearer)
    ∷ (codes "spiffe_oauth_assertion", spiffe_oauth_assertion)
    ∷ []

abbrev pub auth_outcome_arms : Pairs AuthOutcome
auth_outcome_arms = (codes "succeeded", succeeded) ∷ (codes "failed", failed) ∷ []

abbrev pub injection_mode_arms : Pairs InjectionMode
injection_mode_arms =
    (codes "header", header)
    ∷ (codes "url_path", url_path)
    ∷ (codes "query_param", query_param)
    ∷ (codes "basic_auth", basic_auth)
    ∷ (codes "oauth2", oauth2)
    ∷ (codes "spiffe_jwt", spiffe_jwt)
    ∷ []

abbrev pub denial_category_arms : Pairs DenialCategory
denial_category_arms =
    (codes "authentication_failed", authentication_failed)
    ∷ (codes "endpoint_policy", endpoint_policy)
    ∷ (codes "managed_credential_unavailable", managed_credential_unavailable)
    ∷ (codes "host_denied", host_denied)
    ∷ (codes "intercept_handshake_failed", intercept_handshake_failed)
    ∷ (codes "upstream_connect_failed", upstream_connect_failed)
    ∷ (codes "connect_bypasses_l7", connect_bypasses_l7)
    ∷ (codes "external_proxy_rejected", external_proxy_rejected)
    ∷ []

-- One turn of the loop; `unset` is `None` in each field that the dict does not have.
unfoldable pub read_event : {Rest : Type 0} → Rest → PyDict → Result AuditError (Event Rest)
read_event unset dict = do
  timestamp ← required (as_number (2 ^ 64)) dict (codes "timestamp_unix_ms")
  mode_text ← required as_text dict (codes "mode")
  mode' ← parse_label mode_arms (codes "mode") mode_text
  decision_text ← required as_text dict (codes "decision")
  decision' ← parse_label decision_arms (codes "decision") decision_text
  target' ← required as_text dict (codes "target")
  mechanism ← parse_optional auth_mechanism_arms dict (codes "auth_mechanism")
  outcome ← parse_optional auth_outcome_arms dict (codes "auth_outcome")
  injection ← parse_optional injection_mode_arms dict (codes "injection_mode")
  category ← parse_optional denial_category_arms dict (codes "denial_category")
  ok record {
    timestamp_unix_ms = timestamp;
    mode = mode';
    decision = decision';
    target = target';
    port = optional_item (as_number (2 ^ 16)) dict (codes "port");
    method = optional_item as_text dict (codes "method");
    path = optional_item as_text dict (codes "path");
    status = optional_item (as_number (2 ^ 16)) dict (codes "status");
    reason = optional_item as_text dict (codes "reason");
    route_id = optional_item as_text dict (codes "route_id");
    auth_mechanism = mechanism;
    auth_outcome = outcome;
    managed_credential_active = optional_item as_bool dict (codes "managed_credential_active");
    injection_mode = injection;
    denial_category = category;
    rest = unset;
  }
