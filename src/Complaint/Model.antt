-- ===== src/Complaint/Model.antt =====
-- A complaint as it is stored: backend/src/models/complaint.model.ts, with the tables of
-- backend/src/constants/complaint.ts. Texts are code points; `null` is nothing.
use ev_charger_management_pl.Prelude.{ℕ, ◌*◌, Option, Bool, true, false, ◌||◌, List, [], ◌∷◌}
use ev_charger_management_pl.Access.{Owned, Role}
use ev_charger_management_pl.Models.Session.{Text}

-- `COMPLAINT_CATEGORIES`
pub data ComplaintCategory : Type 0 where
  charger_issue session_issue payment_issue station_issue account_issue other : ComplaintCategory

-- `COMPLAINT_PRIORITIES`
pub data ComplaintPriority : Type 0 where
  low medium high : ComplaintPriority

-- `DEFAULT_PRIORITY_BY_CATEGORY`
unfoldable pub default_priority : ComplaintCategory → ComplaintPriority
default_priority charger_issue = high
default_priority session_issue = medium
default_priority payment_issue = medium
default_priority station_issue = medium
default_priority account_issue = medium
default_priority other = low

-- `COMPLAINT_STATUSES`
pub data ComplaintStatus : Type 0 where
  opened in_progress resolved closed : ComplaintStatus

abbrev pub same_status : ComplaintStatus → ComplaintStatus → Bool
same_status opened opened = true
same_status in_progress in_progress = true
same_status resolved resolved = true
same_status closed closed = true
same_status _ _ = false

-- `list.includes(status)`
abbrev pub includes_status : ComplaintStatus → List ComplaintStatus → Bool
includes_status s [] = false
includes_status s (t ∷ rest) = same_status t s || includes_status s rest

-- `ALLOWED_TRANSITIONS`
unfoldable pub allowed_transitions : ComplaintStatus → List ComplaintStatus
allowed_transitions opened = in_progress ∷ closed ∷ []
allowed_transitions in_progress = opened ∷ resolved ∷ closed ∷ []
allowed_transitions resolved = opened ∷ closed ∷ []
allowed_transitions closed = []

abbrev pub same_category : ComplaintCategory → ComplaintCategory → Bool
same_category charger_issue charger_issue = true
same_category session_issue session_issue = true
same_category payment_issue payment_issue = true
same_category station_issue station_issue = true
same_category account_issue account_issue = true
same_category other other = true
same_category _ _ = false

abbrev pub includes_category : ComplaintCategory → List ComplaintCategory → Bool
includes_category c [] = false
includes_category c (d ∷ rest) = same_category d c || includes_category c rest

-- `OPERATOR_RESOLVABLE_CATEGORIES`
unfoldable pub operator_resolvable_categories : List ComplaintCategory
operator_resolvable_categories = charger_issue ∷ session_issue ∷ station_issue ∷ other ∷ []

-- `ADMIN_ONLY_TRANSITIONS`; none of its rules says `from: '*'`.
unfoldable pub admin_only_transitions : List (ComplaintStatus × ComplaintStatus)
admin_only_transitions =
    (opened, closed) ∷ (in_progress, closed) ∷ (resolved, closed) ∷ (resolved, opened) ∷ []

abbrev pub auto_close_after_ms : ℕ
auto_close_after_ms = 7 * 24 * 60 * 60 * 1000

-- `COMPLAINT_ACTORS`
pub data ComplaintActor : Type 0 where
  driver operator cpo_admin super_admin system : ComplaintActor

-- A role is an actor by the same name.
abbrev pub actor_of : Role → ComplaintActor
actor_of Role.driver = ComplaintActor.driver
actor_of Role.operator = ComplaintActor.operator
actor_of Role.cpo_admin = ComplaintActor.cpo_admin
actor_of Role.super_admin = ComplaintActor.super_admin

-- The notes that the code itself writes, and those that people write.
pub data HistoryNote : Type 0 where
  written : Text → HistoryNote
  driver_confirmed closed_automatically : HistoryNote

pub record ComplaintHistoryEntry : Type 0 where
  pub from : ComplaintStatus
  pub to : ComplaintStatus
  pub by_role : ComplaintActor
  pub by_user_id : Option ℕ
  pub note : Option HistoryNote
  pub moved_at : ℕ

pub record ComplaintNote : Type 0 where
  pub by_user_id : ℕ
  pub by_role : ComplaintActor
  pub text : Text
  pub noted_at : ℕ

pub record Complaint : Type 0 where
  pub user_id : ℕ
  pub company_id : Option ℕ
  pub charging_session_id : Option ℕ
  pub charger_id : Option ℕ
  pub station_id : Option ℕ
  pub connector_id : Option ℕ
  pub category : ComplaintCategory
  pub subject : Text
  pub description : Text
  pub priority : ComplaintPriority
  pub status : ComplaintStatus
  pub resolution : Option Text
  pub resolved_by : Option ℕ
  pub resolved_at : Option ℕ
  pub history : List ComplaintHistoryEntry
  pub reopen_count : ℕ
  pub follow_up_of : Option ℕ
  pub assigned_to : Option ℕ
  pub assigned_at : Option ℕ
  pub notes : List ComplaintNote

instance abbrev pub complaint_owned : Owned Complaint
complaint_owned = record { user_of = λ c. c.user_id; company_of = λ c. c.company_id }
