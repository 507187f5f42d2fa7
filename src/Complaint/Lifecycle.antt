-- ===== src/Complaint/Lifecycle.antt =====
-- The lifecycle of one complaint: `applyTransition`, `isAdminOnly` and `setComplaintStatus` of
-- backend/src/services/complaint.service.ts, with the driver's two moves.
-- The services read a complaint through the caller's scope, change it and save it; what they do in
-- between is a function of the document here; Complaint/Service.antt puts the read and the save around
-- it. `trim` is JavaScript's. Log lines, notifications and labels are left out.
use ev_charger_management_pl.Prelude.{
  ℕ, ◌+◌, Option, none, some, Bool, false, not, ◌&&◌, ◌||◌, is_none, or_else, if◌then◌else◌, List,
  [], ◌∷◌, ◌++◌,
}
use ev_charger_management_pl.Prelude.Result.{Result, ok, err}
use ev_charger_management_pl.Access.{AuthUser, is_operator}
use ev_charger_management_pl.Models.Session.{Text}
use ev_charger_management_pl.Complaint.Model.{
  ComplaintStatus, opened, in_progress, resolved, closed, same_status, includes_status,
  allowed_transitions, includes_category, operator_resolvable_categories, admin_only_transitions,
  ComplaintActor, actor_of, HistoryNote, written, driver_confirmed, ComplaintHistoryEntry,
  Complaint, complaint_owned,
}

pub data ComplaintError : Type 0 where
  not_found forbidden_company no_company : ComplaintError
  cannot_move : ComplaintStatus → ComplaintStatus → ComplaintError
  admin_must_conclude admin_must_resolve : ComplaintError
  resolution_required reason_required : ComplaintError
  only_resolved_confirmed only_resolved_reopened : ComplaintError
  closed_to_edits closed_to_assignment operator_cannot_assign cannot_be_assigned : ComplaintError
  original_not_closed session_not_found charger_not_found : ComplaintError

-- What a move records of its resolution.
abbrev resolved_by_move :
    ComplaintStatus → ComplaintStatus → (now : ℕ) → Option ℕ → Complaint → Complaint
resolved_by_move from resolved now user c = record c { resolved_by = user; resolved_at = some now }
resolved_by_move resolved opened now user c = record c {
  resolved_by = none;
  resolved_at = none;
  reopen_count = c.reopen_count + 1;
}
resolved_by_move from to now user c = c

-- The one place where a status is written after creation.
unfoldable pub apply_transition :
    (now : ℕ)
    → ComplaintStatus
    → ComplaintActor
    → Option ℕ
    → Option HistoryNote
    → Complaint
    → Complaint
apply_transition now to role user note c =
    let entry : ComplaintHistoryEntry = record {
      from = c.status;
      to = to;
      by_role = role;
      by_user_id = user;
      note = note;
      moved_at = now;
    } in
    record (resolved_by_move c.status to now user c) {
      status = to;
      history = c.history ++ entry ∷ [];
    }

abbrev some_rule :
    List (ComplaintStatus × ComplaintStatus) → ComplaintStatus → ComplaintStatus → Bool
some_rule [] from to = false
some_rule ((f, t) ∷ rules) from to =
    same_status t to && same_status f from || some_rule rules from to

unfoldable pub is_admin_only : ComplaintStatus → ComplaintStatus → Bool
unfolding admin_only_transitions
is_admin_only from to = some_rule admin_only_transitions from to

-- `text?.trim() || null`
abbrev pub non_empty : Text → Option Text
non_empty [] = none
non_empty (x ∷ xs) = some (x ∷ xs)

abbrev pub trimmed : (Text → Text) → Option Text → Option Text
trimmed trim none = none
trimmed trim (some text) = non_empty (trim text)

-- `!text || text.trim().length === 0`
abbrev pub says_nothing : (Text → Text) → Option Text → Bool
says_nothing trim text = is_none (trimmed trim text)

-- Picking up a ticket that nobody has is taking it.
abbrev pub picked_up : (now : ℕ) → AuthUser → ComplaintStatus → Complaint → Complaint
picked_up now actor in_progress c =
    if is_none c.assigned_to
    then record c { assigned_to = some actor.id; assigned_at = some now }
    else c
picked_up now actor to c = c

abbrev pub note_of : Option Text → Option HistoryNote
note_of none = none
note_of (some text) = some (written text)

abbrev pub moved :
    (now : ℕ)
    → AuthUser
    → ComplaintStatus
    → Option Text
    → Complaint
    → Result ComplaintError Complaint
moved now actor to note c = ok (
    picked_up now actor to
      (apply_transition now to (actor_of actor.role) (some actor.id) (note_of note) c))

-- The explanation that a move needs, and what it writes as the resolution.
unfoldable pub explain_and_move :
    (Text → Text)
    → (now : ℕ) → AuthUser
    → ComplaintStatus
    → Option Text
    → Complaint
    → Result ComplaintError Complaint
unfolding apply_transition
explain_and_move trim now actor resolved note c =
    let text = or_else note c.resolution in
    if says_nothing trim text
    then err resolution_required
    else moved now actor resolved text (record c { resolution = text })
explain_and_move trim now actor closed note c =
    if same_status c.status resolved
    then moved now actor closed note c
    else if is_none note
    then err reason_required
    else moved now actor closed note (record c { resolution = note })
explain_and_move trim now actor to note c = moved now actor to note c

unfoldable pub change_status :
    (Text → Text)
    → (now : ℕ) → AuthUser
    → ComplaintStatus
    → Option Text
    → Complaint
    → Result ComplaintError Complaint
change_status trim now actor to resolution c =
    if same_status c.status to
    then ok c
    else if not (includes_status to (allowed_transitions c.status))
    then err (cannot_move c.status to)
    else if is_operator actor.role && is_admin_only c.status to
    then err admin_must_conclude
    else if is_operator actor.role
        && same_status to resolved
        && not (includes_category c.category operator_resolvable_categories)
    then err admin_must_resolve
    else explain_and_move trim now actor to (trimmed trim resolution) c

-- The driver agrees, or disagrees, that it is fixed.
unfoldable pub confirm_resolved : (now : ℕ) → AuthUser → Complaint → Result ComplaintError Complaint
confirm_resolved now actor c =
    if same_status c.status resolved
    then ok (
        apply_transition now closed ComplaintActor.driver (some actor.id) (some driver_confirmed) c)
    else err only_resolved_confirmed

unfoldable pub reopen :
    (Text → Text)
    → (now : ℕ) → (reason : Text) → AuthUser
    → Complaint
    → Result ComplaintError Complaint
reopen trim now reason actor c =
    if same_status c.status resolved
    then ok (
        apply_transition now opened ComplaintActor.driver (some actor.id)
          (some (written (trim reason))) c)
    else err only_resolved_reopened
