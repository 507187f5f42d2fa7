-- ===== src/Complaint/Policy.antt =====
-- When staff may set a status, in one formula (`setComplaintStatus` of
-- backend/src/services/complaint.service.ts).
use ev_charger_management_pl.Prelude.{
  ℕ, ◌≡◌, ◌∙◌, refl, Option, some, none, ◌==◌, Option-cases, Bool, true, false, not, ◌&&◌, ◌||◌,
  is_none, or_else, Bool-cases, inl, inr, arith,
}
use ev_charger_management_pl.Prelude.Result.{Result, is_ok}
use ev_charger_management_pl.Prelude.Table.{Table, find_by_id}
use ev_charger_management_pl.Access.{
  AuthUser, Role, super_admin, is_driver, is_operator, satisfies, apply_read_scope,
}
use ev_charger_management_pl.Models.Session.{Text}
use ev_charger_management_pl.Complaint.Model.{
  ComplaintStatus, opened, in_progress, resolved, closed, same_status, actor_of, Complaint,
  operator_resolvable_categories, includes_category, includes_status, allowed_transitions,
}
use ev_charger_management_pl.Complaint.Lifecycle.{
  ComplaintError, change_status, explain_and_move, says_nothing, trimmed, is_admin_only,
}
use ev_charger_management_pl.Complaint.Service.{
  complaint_in_scope, on_complaint, set_complaint_status,
}
use ev_charger_management_pl.Complaint.Trail.{permits, staff_permits}

-- A resolution needs a text, from the request or from the draft; to close what was not resolved needs
-- a reason in the request.
abbrev pub explained : (Text → Text) → ComplaintStatus → (text : Option Text) → Complaint → Bool
explained trim resolved text c = not (says_nothing trim (or_else text c.resolution))
explained trim closed text c = same_status c.status resolved || not (is_none text)
explained trim to text c = true

explain-ok :
    (trim : Text → Text) (now : ℕ) (actor : AuthUser) (to : ComplaintStatus) (text : Option Text)
    (c : Complaint)
    → is_ok (explain_and_move trim now actor to text c) ≡ explained trim to text c
unfolding explain_and_move
explain-ok trim now actor opened text c = refl
explain-ok trim now actor in_progress text c = refl
explain-ok trim now actor resolved text c =
    elim (Bool-cases (says_nothing trim (or_else text c.resolution))) [
      | inl silent ↦ rw silent refl
      | inr told ↦ rw told refl
    ]
explain-ok trim now actor closed text c = elim (Bool-cases (same_status c.status resolved)) [
  | inl concluded ↦ rw concluded refl
  | inr early ↦ elim (Bool-cases (is_none text)) [
    | inl silent ↦ rw (early, silent) refl
    | inr told ↦ rw (early, told) refl
  ]
]

guarded_ok :
    (trim : Text → Text) (now : ℕ) (actor : AuthUser) (to : ComplaintStatus) (text : Option Text)
    (c : Complaint)
    → is_ok (change_status trim now actor to text c)
      ≡ same_status c.status to
        || (includes_status to (allowed_transitions c.status)
            && not (is_operator actor.role && is_admin_only c.status to)
            && not (
                is_operator actor.role
                && same_status to resolved
                && not (includes_category c.category operator_resolvable_categories)))
          && explained trim to (trimmed trim text) c
unfolding change_status
guarded_ok trim now actor to text c =
    ground (arith, explain-ok trim now actor to (trimmed trim text) c)

guarded_by_policy :
    (trim : Text → Text) (now : ℕ) (actor : AuthUser) (to : ComplaintStatus) (text : Option Text)
    (c : Complaint)
    → is_driver actor.role ≡ false
    → is_ok (change_status trim now actor to text c)
      ≡ same_status c.status to
        || permits c.category (actor_of actor.role) c.status to
          && explained trim to (trimmed trim text) c
guarded_by_policy trim now actor to text c staff =
    guarded_ok trim now actor to text c
    ∙ rw (staff_permits c.category actor.role c.status to staff) refl

-- Whose complaints staff reach: the platform administrator everyone's, the others their company's.
abbrev pub in_reach : Role → (own company : Option ℕ) → Bool
in_reach super_admin own company = true
in_reach _ (some own) (some company) = own == company
in_reach _ _ _ = false

scope_ok :
    (actor : AuthUser) (k : ℕ) (t : Table Complaint)
    (change : Complaint → Result ComplaintError Complaint)
    → is_driver actor.role ≡ false
    → is_ok (on_complaint actor k change t).0 ≡ elim (find_by_id k t) [
      | none ↦ false
      | some c ↦ in_reach actor.role actor.company_id c.company_id && is_ok (change c)
    ]
unfolding on_complaint complaint_in_scope apply_read_scope satisfies
scope_ok actor k t change staff = ground arith

-- A request of staff to set a status succeeds exactly when the complaint is stored and in their reach,
-- everyone's for the platform administrator and their company's for the others, and has the status
-- already, or the rules permit their role the move for the category and the move is explained.
pub change_status_ok :
    (trim : Text → Text) (now : ℕ) (actor : AuthUser) (k : ℕ) (to : ComplaintStatus)
    (text : Option Text) (t : Table Complaint)
    → is_driver actor.role ≡ false
    → is_ok (set_complaint_status trim now actor k to text t).0 ≡ elim (find_by_id k t) [
      | none ↦ false
      | some c ↦
          in_reach actor.role actor.company_id c.company_id
          && (same_status c.status to
              || permits c.category (actor_of actor.role) c.status to
                && explained trim to (trimmed trim text) c)
    ]
unfolding set_complaint_status
change_status_ok trim now actor k to text t staff =
    scope_ok actor k t (change_status trim now actor to text) staff
    ∙ elim (Option-cases (find_by_id k t)) [
      | inl gone ↦ rw gone refl
      | inr (c, found) ↦ rw (found, guarded_by_policy trim now actor to text c staff) refl
    ]
