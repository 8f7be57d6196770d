-- ===== src/Audit/Session/Laws.antt =====
-- Events copied from one session to another through their dicts.
use nono_py.Common.{
  codes, Bool, true, false, all, All, List, [], ◌∷◌, map, Option, none, some, ok, err,
  if◌then◌else◌, ◌≡◌, refl, Bool-cases, inl, inr,
}
use nono_py.Audit.Event.{
  Event, DenialCategory, authentication_failed, endpoint_policy, managed_credential_unavailable,
  host_denied, intercept_handshake_failed, upstream_connect_failed, connect_bypasses_l7,
  external_proxy_rejected, unsupported_upgrade,
}
use nono_py.Audit.Dict.{audit_event_to_py_dict}
use nono_py.Audit.Decode.{AuditError, invalid}
use nono_py.Audit.Decode.Labels.{read_category, traverse}
use nono_py.Audit.Decode.RoundTrip.{IsInRange, returned, read_event-audit_event_to_py_dict}
use nono_py.Audit.Session.{SessionMetadata, network_events, read_events, set_network_events}

-- The category has an arm.
abbrev pub has_arm : Option DenialCategory → Bool
has_arm none = true
has_arm (some unsupported_upgrade) = false
has_arm (some _) = true

-- The event was not denied for an upgrade that is not supported.
abbrev pub is_readable : {Rest : Type 0} → Event Rest → Bool
is_readable e = has_arm e.denial_category

-- The event without the fields that a dict does not have.
abbrev pub stripped : {Rest : Type 0} → Rest → Event Rest → Event Rest
stripped unset e = record e { rest = unset }

abbrev pub unreadable : AuditError
unreadable = invalid (codes "denial_category") (codes "unsupported_upgrade")

category_lem :
    (o : Option DenialCategory)
    → traverse read_category o ≡ (if has_arm o then ok o else err unreadable)
category_lem none = refl
category_lem (some authentication_failed) = refl
category_lem (some endpoint_policy) = refl
category_lem (some managed_credential_unavailable) = refl
category_lem (some host_denied) = refl
category_lem (some intercept_handshake_failed) = refl
category_lem (some upstream_connect_failed) = refl
category_lem (some connect_bypasses_l7) = refl
category_lem (some external_proxy_rejected) = refl
category_lem (some unsupported_upgrade) = refl

returned_lem :
    {Rest : Type 0} (unset : Rest) (e : Event Rest)
    → returned unset e ≡ (if is_readable e then ok (stripped unset e) else err unreadable)
unfolding returned
returned_lem unset e = elim (Bool-cases (has_arm e.denial_category)) [
  | inl h ↦ rw (returned, category_lem e.denial_category, h) refl
  | inr h ↦ rw (returned, category_lem e.denial_category, h) refl
]

read_events_lem :
    {Rest : Type 0} (unset : Rest) (es : List (Event Rest))
    → All IsInRange es
    → read_events unset (map audit_event_to_py_dict es)
      ≡ (if all is_readable es then ok (map (stripped unset) es) else err unreadable)
unfolding read_events
read_events_lem unset [] r = refl
read_events_lem unset (e ∷ es) (r, rs) = elim (Bool-cases (is_readable e)) [
  | inl h ↦ elim (Bool-cases (all is_readable es)) [
    | inl k ↦
        rw
          (
            read_event-audit_event_to_py_dict unset e r,
            returned_lem unset e,
            read_events_lem unset es rs,
            h,
            k,
          )
          refl
    | inr k ↦
        rw
          (
            read_event-audit_event_to_py_dict unset e r,
            returned_lem unset e,
            read_events_lem unset es rs,
            h,
            k,
          )
          refl
  ]
  | inr h ↦ rw (read_event-audit_event_to_py_dict unset e r, returned_lem unset e, h) refl
]

-- Setting a session's events from the dicts of another's, whose numbers are in their ranges: if no
-- event was denied for an unsupported upgrade, the session has the other's events without the
-- fields that a dict does not have, and is otherwise as it was; if one was, the session is
-- unchanged and the call fails over that category.
pub set_network_events-network_events :
    {Rest Other : Type 0} (unset : Rest) (session source : SessionMetadata Rest Other)
    → All IsInRange source.network_events
    → set_network_events unset session (network_events source) ≡ (
        if all is_readable source.network_events
        then (record session { network_events = map (stripped unset) source.network_events }, ok tt)
        else (session, err unreadable))
unfolding set_network_events network_events
set_network_events-network_events unset session source r =
    let es = source.network_events in
    elim (Bool-cases (all is_readable es)) [
      | inl h ↦ rw (set_network_events, read_events_lem unset es r, h) refl
      | inr h ↦ rw (set_network_events, read_events_lem unset es r, h) refl
    ]
