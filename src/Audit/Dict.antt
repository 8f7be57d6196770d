-- ===== src/Audit/Dict.antt =====
-- src/proxy.rs: `audit_event_to_py_dict`. A dict is the list of its items in the order in which they
-- were set, under distinct keys.
use nono_py.Common.{ℕ, Bytes, codes, Bool, [], ◌∷◌, Option, none, some}
use nono_py.SortedMap.{Pairs}
use nono_py.Audit.Event.{
  Mode, connect, connect_intercept, reverse, external, Decision, allow, deny, approve_requested,
  approve_granted, approve_denied, approve_timeout, approve_error, AuthMechanism,
  proxy_authorization, phantom_header, phantom_path, phantom_query, spiffe_jwt_bearer,
  spiffe_oauth_assertion, AuthOutcome, succeeded, failed, InjectionMode, header, url_path,
  query_param, basic_auth, oauth2, spiffe_jwt, DenialCategory, authentication_failed,
  endpoint_policy, managed_credential_unavailable, host_denied, intercept_handshake_failed,
  upstream_connect_failed, connect_bypasses_l7, external_proxy_rejected, unsupported_upgrade, Event,
}

-- The Python values that matter: `py_negative n` is -(n + 1), and `py_other` any other object.
pub data PyValue : Type 0 where
  py_none py_other : PyValue
  py_bool : Bool → PyValue
  py_int : ℕ → PyValue
  py_negative : ℕ → PyValue
  py_str : Bytes → PyValue

abbrev pub PyDict : Type 0
PyDict = Pairs PyValue

abbrev pub mode_label : Mode → Bytes
mode_label connect = codes "connect"
mode_label connect_intercept = codes "connect_intercept"
mode_label reverse = codes "reverse"
mode_label external = codes "external"

abbrev pub decision_label : Decision → Bytes
decision_label allow = codes "allow"
decision_label deny = codes "deny"
decision_label approve_requested = codes "approve_requested"
decision_label approve_granted = codes "approve_granted"
decision_label approve_denied = codes "approve_denied"
decision_label approve_timeout = codes "approve_timeout"
decision_label approve_error = codes "approve_error"

abbrev pub auth_mechanism_label : AuthMechanism → Bytes
auth_mechanism_label proxy_authorization = codes "proxy_authorization"
auth_mechanism_label phantom_header = codes "phantom_header"
auth_mechanism_label phantom_path = codes "phantom_path"
auth_mechanism_label phantom_query = codes "phantom_query"
auth_mechanism_label spiffe_jwt_bearer = codes "spiffe_jwt_bearer"
auth_mechanism_label spiffe_oauth_assertion = codes "spiffe_oauth_assertion"

abbrev pub auth_outcome_label : AuthOutcome → Bytes
auth_outcome_label succeeded = codes "succeeded"
auth_outcome_label failed = codes "failed"

abbrev pub injection_mode_label : InjectionMode → Bytes
injection_mode_label header = codes "header"
injection_mode_label url_path = codes "url_path"
injection_mode_label query_param = codes "query_param"
injection_mode_label basic_auth = codes "basic_auth"
injection_mode_label oauth2 = codes "oauth2"
injection_mode_label spiffe_jwt = codes "spiffe_jwt"

abbrev pub denial_category_label : DenialCategory → Bytes
denial_category_label authentication_failed = codes "authentication_failed"
denial_category_label endpoint_policy = codes "endpoint_policy"
denial_category_label managed_credential_unavailable = codes "managed_credential_unavailable"
denial_category_label host_denied = codes "host_denied"
denial_category_label intercept_handshake_failed = codes "intercept_handshake_failed"
denial_category_label upstream_connect_failed = codes "upstream_connect_failed"
denial_category_label connect_bypasses_l7 = codes "connect_bypasses_l7"
denial_category_label external_proxy_rejected = codes "external_proxy_rejected"
denial_category_label unsupported_upgrade = codes "unsupported_upgrade"

-- `None` or the value.
abbrev pub optional {ℓ} : {A : Type ℓ} → (A → PyValue) → Option A → PyValue
optional f none = py_none
optional f (some a) = f a

unfoldable pub audit_event_to_py_dict : {Rest : Type 0} → Event Rest → PyDict
audit_event_to_py_dict event =
    (codes "timestamp_unix_ms", py_int event.timestamp_unix_ms)
    ∷ (codes "mode", py_str (mode_label event.mode))
    ∷ (codes "decision", py_str (decision_label event.decision))
    ∷ (codes "target", py_str event.target)
    ∷ (codes "port", optional py_int event.port)
    ∷ (codes "method", optional py_str event.method)
    ∷ (codes "path", optional py_str event.path)
    ∷ (codes "status", optional py_int event.status)
    ∷ (codes "reason", optional py_str event.reason)
    ∷ (codes "route_id", optional py_str event.route_id)
    ∷ (codes "auth_mechanism", optional (λ m. py_str (auth_mechanism_label m)) event.auth_mechanism)
    ∷ (codes "auth_outcome", optional (λ o. py_str (auth_outcome_label o)) event.auth_outcome)
    ∷ (codes "managed_credential_active", optional py_bool event.managed_credential_active)
    ∷ (codes "injection_mode", optional (λ m. py_str (injection_mode_label m)) event.injection_mode)
    ∷ (
      codes "denial_category",
      optional (λ c. py_str (denial_category_label c)) event.denial_category,
    )
    ∷ []
