-- ===== src/Complaint/Filing.antt =====
-- How a complaint is filed: `resolveAnchor`, `initialPriority` and `createComplaint` of
-- backend/src/services/complaint.service.ts. The client names one thing at most, and every other id
-- comes from the database.
use ev_charger_management_pl.Prelude.{
  ℕ, Option, none, some, Bool, true, false, is_some, if◌then◌else◌, [],
}
use ev_charger_management_pl.Prelude.Result.{Result, ok, err}
use ev_charger_management_pl.Prelude.Table.{Table, ObjectIds, find_by_id, create}
use ev_charger_management_pl.Access.{AuthUser, plain, satisfies, apply_read_scope}
use ev_charger_management_pl.Models.Session.{SessionStatus, ChargingSession, session_owned, Text}
use ev_charger_management_pl.Models.Charger.{Charger}
use ev_charger_management_pl.Store.{Store}
use ev_charger_management_pl.Complaint.Model.{
  ComplaintCategory, session_issue, ComplaintPriority, high, default_priority, opened, closed,
  same_status, Complaint,
}
use ev_charger_management_pl.Complaint.Lifecycle.{
  ComplaintError, original_not_closed, session_not_found, charger_not_found, no_company,
}
use ev_charger_management_pl.Complaint.Service.{complaint_in_scope}

pub record CreateComplaintInput : Type 0 where
  pub category : ComplaintCategory
  pub subject : Text
  pub description : Text
  pub charging_session_id : Option ℕ
  pub charger_id : Option ℕ
  pub follow_up_of : Option ℕ

pub record ResolvedAnchor : Type 0 where
  pub company_id : Option ℕ
  pub charging_session_id : Option ℕ
  pub charger_id : Option ℕ
  pub station_id : Option ℕ
  pub connector_id : Option ℕ

abbrev pub no_anchor : ResolvedAnchor
no_anchor = record {
  company_id = none;
  charging_session_id = none;
  charger_id = none;
  station_id = none;
  connector_id = none;
}

-- Through the caller's scope: another driver's session cannot be named.
unfoldable pub session_anchor :
    AuthUser → ℕ → Table ChargingSession → Result ComplaintError ResolvedAnchor
session_anchor actor k sessions =
    elim (apply_read_scope actor (plain (λ (s : ChargingSession). true))) [
      | err _ ↦ err no_company
      | ok scope ↦ elim (find_by_id k sessions) [
        | none ↦ err session_not_found
        | some s ↦
            if satisfies scope s
            then ok (record {
              company_id = some s.company_id;
              charging_session_id = some k;
              charger_id = some s.charger_id;
              station_id = some s.station_id;
              connector_id = some s.connector_id;
            })
            else err session_not_found
      ]
    ]

-- A charger is public: anyone may complain about it.
unfoldable pub charger_anchor : ℕ → Table Charger → Result ComplaintError ResolvedAnchor
charger_anchor k chargers = elim (find_by_id k chargers) [
  | none ↦ err charger_not_found
  | some c ↦ ok (record {
    company_id = some c.company_id;
    charging_session_id = none;
    charger_id = some k;
    station_id = some c.station_id;
    connector_id = none;
  })
]

unfoldable pub resolve_anchor :
    AuthUser → CreateComplaintInput → Store → Result ComplaintError ResolvedAnchor
resolve_anchor actor input db = elim input.charging_session_id [
  | some s ↦ session_anchor actor s db.sessions
  | none ↦ elim input.charger_id [ some c ↦ charger_anchor c db.chargers | none ↦ ok no_anchor ]
]

abbrev pub is_failed : SessionStatus → Bool
is_failed SessionStatus.failed = true
is_failed _ = false

abbrev pub failed_session : Option ℕ → Table ChargingSession → Bool
failed_session none sessions = false
failed_session (some k) sessions = elim (find_by_id k sessions) [
  | none ↦ false
  | some s ↦ is_failed s.status
]

unfoldable pub initial_priority :
    ComplaintCategory → Option ℕ → (is_follow_up : Bool) → Table ChargingSession → ComplaintPriority
initial_priority category session_id true sessions = high
initial_priority session_issue session_id false sessions =
    if failed_session session_id sessions then high else default_priority session_issue
initial_priority category session_id false sessions = default_priority category

-- The original of a follow-up hands its anchor on, once it is closed.
unfoldable pub inherited_anchor :
    AuthUser → ℕ → Table Complaint → Result ComplaintError ResolvedAnchor
inherited_anchor actor k complaints = elim (complaint_in_scope actor k complaints) [
  | err e ↦ err e
  | ok original ↦
      if same_status original.status closed
      then ok (record {
        company_id = original.company_id;
        charging_session_id = original.charging_session_id;
        charger_id = original.charger_id;
        station_id = original.station_id;
        connector_id = original.connector_id;
      })
      else err original_not_closed
]

abbrev pub anchor_of :
    AuthUser → CreateComplaintInput → Store → Table Complaint → Result ComplaintError ResolvedAnchor
anchor_of actor input db complaints = elim input.follow_up_of [
  | some k ↦ inherited_anchor actor k complaints
  | none ↦ resolve_anchor actor input db
]

-- The complaint that is filed.
abbrev pub filed :
    AuthUser → CreateComplaintInput → ResolvedAnchor → Table ChargingSession → Complaint
filed actor input anchor sessions = record {
  user_id = actor.id;
  company_id = anchor.company_id;
  charging_session_id = anchor.charging_session_id;
  charger_id = anchor.charger_id;
  station_id = anchor.station_id;
  connector_id = anchor.connector_id;
  category = input.category;
  subject = input.subject;
  description = input.description;
  priority =
      initial_priority input.category anchor.charging_session_id (is_some input.follow_up_of)
        sessions;
  status = opened;
  resolution = none;
  resolved_by = none;
  resolved_at = none;
  history = [];
  reopen_count = 0;
  follow_up_of = input.follow_up_of;
  assigned_to = none;
  assigned_at = none;
  notes = [];
}

unfoldable pub create_complaint :
    ObjectIds
    → AuthUser
    → CreateComplaintInput
    → Store
    → Table Complaint
    → Result ComplaintError (ℕ × Complaint) × Table Complaint
create_complaint ids actor input db complaints = elim (anchor_of actor input db complaints) [
  | err e ↦ (err e, complaints)
  | ok anchor ↦
      let k = ids.fresh _ complaints in
      let c = filed actor input anchor db.sessions in (ok (k, c), create k c complaints)
]
