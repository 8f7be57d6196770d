-- ===== src/Audit/Event.antt =====
-- The audit event of the nono crate, by the fields that the dicts have; `Rest` stands for the other
-- fields. Then the dict of src/proxy.rs, `audit_event_to_py_dict`.
use nono_py.Common.{ℕ, Bytes, Bool, Option}

pub data Mode : Type 0 where
  connect connect_intercept reverse external : Mode

pub data Decision : Type 0 where
  allow deny approve_requested approve_granted approve_denied approve_timeout : Decision
  approve_error : Decision

pub data AuthMechanism : Type 0 where
  proxy_authorization phantom_header phantom_path phantom_query : AuthMechanism
  spiffe_jwt_bearer spiffe_oauth_assertion : AuthMechanism

pub data AuthOutcome : Type 0 where
  succeeded failed : AuthOutcome

pub data InjectionMode : Type 0 where
  header url_path query_param basic_auth oauth2 spiffe_jwt : InjectionMode

pub data DenialCategory : Type 0 where
  authentication_failed endpoint_policy managed_credential_unavailable : DenialCategory
  host_denied intercept_handshake_failed upstream_connect_failed : DenialCategory
  connect_bypasses_l7 external_proxy_rejected unsupported_upgrade : DenialCategory

pub record Event (Rest : Type 0) : Type 0 where
  pub timestamp_unix_ms : ℕ
  pub mode : Mode
  pub decision : Decision
  pub target : Bytes
  pub port : Option ℕ
  pub method : Option Bytes
  pub path : Option Bytes
  pub status : Option ℕ
  pub reason : Option Bytes
  pub route_id : Option Bytes
  pub auth_mechanism : Option AuthMechanism
  pub auth_outcome : Option AuthOutcome
  pub managed_credential_active : Option Bool
  pub injection_mode : Option InjectionMode
  pub denial_category : Option DenialCategory
  pub rest : Rest
