-- ===== src/Complaint/Triage.antt =====
-- What staff do to a complaint besides moving it, and what a driver is shown of it:
-- `updateComplaint`, `assignComplaint` and `withComplaintContext` of
-- backend/src/services/complaint.service.ts. The names and labels that are looked up for display are
-- left out of the view.
use ev_charger_management_pl.Prelude.{
  ℕ, Option, none, some, Bool, true, false, not, ◌&&◌, ◌||◌, ◌==◌, is_some, is_ref, get_or,
  if◌then◌else◌, List, [], ◌∷◌, ◌++◌,
}
use ev_charger_management_pl.Prelude.Result.{Result, ok, err, Action}
use ev_charger_management_pl.Prelude.Table.{Table, find_by_id}
use ev_charger_management_pl.Access.{AuthUser, Role, is_driver, is_operator}
use ev_charger_management_pl.Models.Session.{Text}
use ev_charger_management_pl.Complaint.Model.{
  ComplaintPriority, resolved, closed, same_status, actor_of, ComplaintNote, Complaint,
}
use ev_charger_management_pl.Complaint.Lifecycle.{
  ComplaintError, closed_to_edits, closed_to_assignment, operator_cannot_assign, cannot_be_assigned,
}
use ev_charger_management_pl.Complaint.Service.{on_complaint}

pub record UpdateComplaintInput : Type 0 where
  pub priority : Option ComplaintPriority
  pub resolution : Option Text
  pub note : Option Text

abbrev noted : (now : ℕ) → AuthUser → Option Text → List ComplaintNote → List ComplaintNote
noted now actor none notes = notes
noted now actor (some text) notes =
    notes
    ++ (record {
      by_user_id = actor.id;
      by_role = actor_of actor.role;
      text = text;
      noted_at = now;
    })
      ∷ []

abbrev draft : Option Text → Option Text → Option Text
draft none old = old
draft (some text) old = some text

unfoldable pub edited :
    (now : ℕ) → UpdateComplaintInput → AuthUser → Complaint → Result ComplaintError Complaint
edited now input actor c =
    if same_status c.status closed
    then err closed_to_edits
    else ok (record c {
      priority = get_or input.priority c.priority;
      resolution = draft input.resolution c.resolution;
      notes = noted now actor input.note c.notes;
    })

unfoldable pub update_complaint :
    (now : ℕ)
    → AuthUser
    → ℕ
    → UpdateComplaintInput
    → Action (Table Complaint) ComplaintError Complaint
update_complaint now actor k input = on_complaint actor k (edited now input actor)

-- The parts of a user that an assignment reads.
pub record StaffUser : Type 0 where
  pub role : Role
  pub company_id : Option ℕ
  pub is_active : Bool

-- `complaint.companyId !== null && String(assignee.companyId) === String(complaint.companyId)`
abbrev same_company : Option ℕ → Option ℕ → Bool
same_company none theirs = false
same_company (some c) theirs = is_ref theirs c

abbrev pub can_see : StaffUser → Complaint → Bool
can_see u c = elim u.role [
  | Role.super_admin ↦ true
  | Role.cpo_admin ↦ same_company c.company_id u.company_id
  | Role.operator ↦ same_company c.company_id u.company_id
  | Role.driver ↦ false
]

abbrev pub assignable : Table StaffUser → Complaint → Option ℕ → Bool
assignable users c none = true
assignable users c (some k) = elim (find_by_id k users) [
  | none ↦ false
  | some u ↦ u.is_active && can_see u c
]

-- An operator takes a ticket, or releases one that they hold.
abbrev pub takes_or_releases : AuthUser → Option ℕ → Complaint → Bool
takes_or_releases actor none c = is_ref c.assigned_to actor.id
takes_or_releases actor (some k) c = k == actor.id

unfoldable pub assigned :
    Table StaffUser → (now : ℕ) → Option ℕ → AuthUser → Complaint → Result ComplaintError Complaint
assigned users now assignee actor c =
    if same_status c.status closed
    then err closed_to_assignment
    else if is_operator actor.role && not (takes_or_releases actor assignee c)
    then err operator_cannot_assign
    else if not (assignable users c assignee)
    then err cannot_be_assigned
    else ok (record c {
      assigned_to = assignee;
      assigned_at = if is_some assignee then some now else none;
    })

unfoldable pub assign_complaint :
    Table StaffUser
    → (now : ℕ) → AuthUser
    → ℕ
    → Option ℕ
    → Action (Table Complaint) ComplaintError Complaint
assign_complaint users now actor k assignee =
    on_complaint actor k (assigned users now assignee actor)

-- What the caller is shown: staff all of it, a driver neither notes nor the assignee, and the
-- resolution once staff have concluded.
unfoldable pub shown_to : AuthUser → Complaint → Complaint
shown_to actor c =
    if is_driver actor.role
    then record c {
      resolution =
          if same_status c.status resolved || same_status c.status closed
          then c.resolution
          else none;
      notes = [];
      assigned_to = none;
      assigned_at = none;
    }
    else c
