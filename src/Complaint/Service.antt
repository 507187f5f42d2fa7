-- ===== src/Complaint/Service.antt =====
-- The operations on stored complaints: a service reads a complaint in the caller's scope, changes it
-- (Complaint/Lifecycle.antt) and saves it; the automatic close runs over all of them
-- (backend/src/services/complaint.service.ts).
use ev_charger_management_pl.Prelude.{
  ℕ, ◌-◌, Option, none, some, Bool, true, false, ◌&&◌, ◌||◌, ltb, if◌then◌else◌, [], ◌∷◌, length,
}
use ev_charger_management_pl.Prelude.Result.{Result, ok, err, Action}
use ev_charger_management_pl.Prelude.Table.{Table, find_by_id, find_all, save}
use ev_charger_management_pl.Access.{
  AuthUser, is_driver, is_super_admin, plain, satisfies, apply_read_scope,
}
use ev_charger_management_pl.Models.Session.{Text}
use ev_charger_management_pl.Complaint.Model.{
  ComplaintStatus, resolved, closed, same_status, auto_close_after_ms, ComplaintActor,
  closed_automatically, Complaint, complaint_owned,
}
use ev_charger_management_pl.Complaint.Lifecycle.{
  ComplaintError, not_found, forbidden_company, no_company, apply_transition, change_status,
  confirm_resolved, reopen,
}

-- `notFoundOrForbidden`: company staff cannot probe which ids are real.
abbrev not_found_or_forbidden : AuthUser → ComplaintError
not_found_or_forbidden actor =
    if is_super_admin actor.role || is_driver actor.role then not_found else forbidden_company

-- `assertComplaintInScope`
unfoldable pub complaint_in_scope : AuthUser → ℕ → Table Complaint → Result ComplaintError Complaint
complaint_in_scope actor k t = elim (apply_read_scope actor (plain (λ (c : Complaint). true))) [
  | err _ ↦ err no_company
  | ok scope ↦ elim (find_by_id k t) [
    | none ↦ err (not_found_or_forbidden actor)
    | some c ↦ if satisfies scope c then ok c else err (not_found_or_forbidden actor)
  ]
]

-- A service on one complaint: read it in scope, change it, save it.
unfoldable pub on_complaint :
    AuthUser
    → ℕ
    → (Complaint → Result ComplaintError Complaint)
    → Action (Table Complaint) ComplaintError Complaint
on_complaint actor k change t = elim (complaint_in_scope actor k t) [
  | err e ↦ (err e, t)
  | ok c ↦ elim (change c) [ err e ↦ (err e, t) | ok c' ↦ (ok c', save k c' t) ]
]

unfoldable pub set_complaint_status :
    (Text → Text)
    → (now : ℕ) → AuthUser
    → ℕ
    → ComplaintStatus
    → Option Text
    → Action (Table Complaint) ComplaintError Complaint
set_complaint_status trim now actor k to resolution =
    on_complaint actor k (change_status trim now actor to resolution)

unfoldable pub confirm_complaint_resolved :
    (now : ℕ) → AuthUser → ℕ → Action (Table Complaint) ComplaintError Complaint
confirm_complaint_resolved now actor k = on_complaint actor k (confirm_resolved now actor)

unfoldable pub reopen_complaint :
    (Text → Text)
    → (now : ℕ) → AuthUser
    → ℕ
    → (reason : Text) → Action (Table Complaint) ComplaintError Complaint
reopen_complaint trim now actor k reason = on_complaint actor k (reopen trim now reason actor)

abbrev pub lapsed : (now : ℕ) → Complaint → Complaint
lapsed now c = apply_transition now closed ComplaintActor.system none (some closed_automatically) c

-- `{ status: 'resolved', resolvedAt: { $lt: cutoff } }`
abbrev pub resolved_before : (cutoff : ℕ) → Complaint → Bool
resolved_before cutoff c =
    same_status c.status resolved && elim c.resolved_at [ none ↦ false | some at ↦ ltb at cutoff ]

unfoldable pub close_each : (now : ℕ) → Table Complaint → Table Complaint → Table Complaint
close_each now [] t = t
close_each now ((k, c) ∷ due) t = close_each now due (save k (lapsed now c) t)

unfoldable pub sweep_resolved_complaints : (now : ℕ) → Table Complaint → ℕ × Table Complaint
sweep_resolved_complaints now t =
    let due = find_all (resolved_before (now - auto_close_after_ms)) t in
    (length due, close_each now due t)
