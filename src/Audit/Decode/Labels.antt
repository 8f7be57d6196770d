-- ===== src/Audit/Decode/Labels.antt =====
-- Each label is read back as what it stands for, save the one that has no arm.
use nono_py.Common.{Bytes, codes, bytes_eq, Option, none, some, Result, ok, err, ◌>>=◌, ◌≡◌, refl}
use nono_py.SortedMap.{Pairs, lookup}
use nono_py.Audit.Event.{
  Mode, connect, connect_intercept, reverse, external, Decision, allow, deny, approve_requested,
  approve_granted, approve_denied, approve_timeout, approve_error, AuthMechanism,
  proxy_authorization, phantom_header, phantom_path, phantom_query, spiffe_jwt_bearer,
  spiffe_oauth_assertion, AuthOutcome, succeeded, failed, InjectionMode, header, url_path,
  query_param, basic_auth, oauth2, spiffe_jwt, DenialCategory, authentication_failed,
  endpoint_policy, managed_credential_unavailable, host_denied, intercept_handshake_failed,
  upstream_connect_failed, connect_bypasses_l7, external_proxy_rejected, unsupported_upgrade,
}
use nono_py.Audit.Dict.{
  py_str, PyDict, optional, mode_label, decision_label, auth_mechanism_label, auth_outcome_label,
  injection_mode_label, denial_category_label,
}
use nono_py.Audit.Decode.{
  AuditError, invalid, optional_item, parse_label, parse_optional, mode_arms, decision_arms,
  auth_mechanism_arms, auth_outcome_arms, injection_mode_arms, denial_category_arms,
}

pub mode-label : (m : Mode) (f : Bytes) → parse_label mode_arms f (mode_label m) ≡ ok m
unfolding parse_label lookup bytes_eq
mode-label connect f = refl
mode-label connect_intercept f = refl
mode-label reverse f = refl
mode-label external f = refl

pub decision-label :
    (d : Decision) (f : Bytes) → parse_label decision_arms f (decision_label d) ≡ ok d
unfolding parse_label lookup bytes_eq
decision-label allow f = refl
decision-label deny f = refl
decision-label approve_requested f = refl
decision-label approve_granted f = refl
decision-label approve_denied f = refl
decision-label approve_timeout f = refl
decision-label approve_error f = refl

pub auth_mechanism-label :
    (m : AuthMechanism) (f : Bytes)
    → parse_label auth_mechanism_arms f (auth_mechanism_label m) ≡ ok m
unfolding parse_label lookup bytes_eq
auth_mechanism-label proxy_authorization f = refl
auth_mechanism-label phantom_header f = refl
auth_mechanism-label phantom_path f = refl
auth_mechanism-label phantom_query f = refl
auth_mechanism-label spiffe_jwt_bearer f = refl
auth_mechanism-label spiffe_oauth_assertion f = refl

pub auth_outcome-label :
    (o : AuthOutcome) (f : Bytes) → parse_label auth_outcome_arms f (auth_outcome_label o) ≡ ok o
unfolding parse_label lookup bytes_eq
auth_outcome-label succeeded f = refl
auth_outcome-label failed f = refl

pub injection_mode-label :
    (m : InjectionMode) (f : Bytes)
    → parse_label injection_mode_arms f (injection_mode_label m) ≡ ok m
unfolding parse_label lookup bytes_eq
injection_mode-label header f = refl
injection_mode-label url_path f = refl
injection_mode-label query_param f = refl
injection_mode-label basic_auth f = refl
injection_mode-label oauth2 f = refl
injection_mode-label spiffe_jwt f = refl

-- What `set_network_events` makes of a category's label.
abbrev pub read_category : DenialCategory → Result AuditError DenialCategory
read_category unsupported_upgrade =
    err (invalid (codes "denial_category") (codes "unsupported_upgrade"))
read_category c = ok c

pub denial_category-label :
    (c : DenialCategory)
    → parse_label denial_category_arms (codes "denial_category") (denial_category_label c)
      ≡ read_category c
unfolding parse_label lookup bytes_eq
denial_category-label authentication_failed = refl
denial_category-label endpoint_policy = refl
denial_category-label managed_credential_unavailable = refl
denial_category-label host_denied = refl
denial_category-label intercept_handshake_failed = refl
denial_category-label upstream_connect_failed = refl
denial_category-label connect_bypasses_l7 = refl
denial_category-label external_proxy_rejected = refl
denial_category-label unsupported_upgrade = refl

-- An optional field, from what its label is read as.
abbrev pub traverse {ℓ} :
    {A : Type ℓ} → (A → Result AuditError A) → Option A → Result AuditError (Option A)
traverse f none = ok none
traverse f (some a) = do b ← f a; ok (some b)

pub parse_optional-label {ℓ} :
    {A : Type ℓ} (arms : Pairs A) (label : A → Bytes) (read : A → Result AuditError A)
    (dict : PyDict) (key : Bytes) (o : Option A)
    → ((a : A) → parse_label arms key (label a) ≡ read a)
    → lookup key dict ≡ some (optional (λ a. py_str (label a)) o)
    → parse_optional arms dict key ≡ traverse read o
unfolding parse_optional optional_item
parse_optional-label arms label read dict key none reads found =
    rw (parse_optional, optional_item, found) refl
parse_optional-label arms label read dict key (some a) reads found =
    rw (parse_optional, optional_item, found) (rw (reads a) refl)

pub traverse_ok {ℓ} : {A : Type ℓ} (o : Option A) → traverse ok o ≡ ok o
traverse_ok none = refl
traverse_ok (some a) = refl
