-- ===== src/Complaint/Refusals.antt =====
-- What the reading and the saving around a complaint's change do, and what a closed complaint refuses
-- (`assertComplaintInScope` and its callers in backend/src/services/complaint.service.ts).
use ev_charger_management_pl.Prelude.{
  ℕ, ◌≡◌, ◌⊎◌, refl, not, ◌&&◌, Option, some, Bool, true, false, inl, inr, arith,
}
use ev_charger_management_pl.Prelude.Result.{Result, ok, is_ok, Result-cases}
use ev_charger_management_pl.Prelude.Table.{Table, find_by_id, save}
use ev_charger_management_pl.Prelude.Each.{save_same}
use ev_charger_management_pl.Access.{AuthUser}
use ev_charger_management_pl.Models.Session.{Text}
use ev_charger_management_pl.Complaint.Model.{
  ComplaintStatus, closed, same_status, allowed_transitions, complaint_owned, Complaint,
}
use ev_charger_management_pl.Complaint.Lifecycle.{
  ComplaintError, change_status, confirm_resolved, reopen,
}
use ev_charger_management_pl.Complaint.Service.{
  complaint_in_scope, on_complaint, set_complaint_status, confirm_complaint_resolved,
  reopen_complaint,
}
use ev_charger_management_pl.Complaint.Triage.{
  UpdateComplaintInput, edited, update_complaint, StaffUser, assigned, assign_complaint,
}

-- A complaint that is in scope is stored under its id.
pub in_scope_found :
    (actor : AuthUser) (k : ℕ) (t : Table Complaint) (c : Complaint)
    → complaint_in_scope actor k t ≡ ok c
    → find_by_id k t ≡ some c
unfolding complaint_in_scope
in_scope_found actor k t c h = ground arith

-- An operation on a complaint fails and writes nothing, or saves what the change made of it.
pub on_complaint_cases :
    (actor : AuthUser) (k : ℕ) (change : Complaint → Result ComplaintError Complaint)
    (t : Table Complaint)
    → ((is_ok (on_complaint actor k change t).0 ≡ false) × ((on_complaint actor k change t).1 ≡ t))
      ⊎ ((c c' : Complaint) × (find_by_id k t ≡ some c)
          × (change c ≡ ok c')
          × ((on_complaint actor k change t).1 ≡ save k c' t))
unfolding on_complaint
on_complaint_cases actor k change t = elim (Result-cases (complaint_in_scope actor k t)) [
  | inl (e, out) ↦ inl (rw (out, on_complaint) (refl, refl))
  | inr (c, within) ↦ elim (Result-cases (change c)) [
    | inl (e, bad) ↦ inl (rw (within, bad, on_complaint) (refl, refl))
    | inr (c', good) ↦
        inr (c, c', in_scope_found actor k t c within, good, rw (within, good, on_complaint) refl)
  ]
]

-- The change that a request makes, besides the reading and the saving.
pub data ComplaintRequest : Type 0 where
  set_status : (to : ComplaintStatus) → Option Text → ComplaintRequest
  update : UpdateComplaintInput → ComplaintRequest
  assign : (assignee : Option ℕ) → ComplaintRequest
  confirm : ComplaintRequest
  dispute : (reason : Text) → ComplaintRequest

-- The one request that a closed complaint grants: to be closed.
abbrev pub asks_closing : ComplaintRequest → Bool
asks_closing (set_status to text) = same_status to closed
asks_closing request = false

module _ (trim : Text → Text) (users : Table StaffUser) (now : ℕ) (actor : AuthUser) (k : ℕ) where
  -- The service behind each request on a complaint that exists.
  abbrev pub serve :
      ComplaintRequest → Table Complaint → Result ComplaintError Complaint × Table Complaint
  serve (set_status to text) = set_complaint_status trim now actor k to text
  serve (update input) = update_complaint now actor k input
  serve (assign assignee) = assign_complaint users now actor k assignee
  serve confirm = confirm_complaint_resolved now actor k
  serve (dispute reason) = reopen_complaint trim now actor k reason

  -- The change alone.
  abbrev pub change_of : ComplaintRequest → Complaint → Result ComplaintError Complaint
  change_of (set_status to text) = change_status trim now actor to text
  change_of (update input) = edited now input actor
  change_of (assign assignee) = assigned users now assignee actor
  change_of confirm = confirm_resolved now actor
  change_of (dispute reason) = reopen trim now reason actor

  pub serve_lem :
      (request : ComplaintRequest) (t : Table Complaint)
      → serve request t ≡ on_complaint actor k (change_of request) t
  unfolding set_complaint_status update_complaint assign_complaint confirm_complaint_resolved
      reopen_complaint
  serve_lem (set_status to text) t = refl
  serve_lem (update input) t = refl
  serve_lem (assign assignee) t = refl
  serve_lem confirm t = refl
  serve_lem (dispute reason) t = refl

  closed_change :
      (request : ComplaintRequest) (c : Complaint)
      → same_status c.status closed ≡ true
      → (is_ok (change_of request c) ≡ false)
        ⊎ ((change_of request c ≡ ok c) × (asks_closing request ≡ true))
  unfolding change_status edited assigned confirm_resolved reopen allowed_transitions
  closed_change (set_status to text) c final = ground arith
  closed_change (update input) c final = ground arith
  closed_change (assign assignee) c final = ground arith
  closed_change confirm c final = ground arith
  closed_change (dispute reason) c final = ground arith

  -- Whatever is asked of a closed complaint, no stored complaint changes, and unless the request is to
  -- close it, the request fails.
  pub closed_is_final :
      (request : ComplaintRequest) (t : Table Complaint) (c : Complaint)
      → find_by_id k t ≡ some c
      → same_status c.status closed ≡ true
      → ((serve request t).1 ≡ t)
        × ((is_ok (serve request t).0 && not (asks_closing request)) ≡ false)
  closed_is_final request t c found final =
      rw serve_lem (elim (on_complaint_cases actor k (change_of request) t) [
        | inl (bad, kept) ↦ (kept, rw bad refl)
        | inr (c₀, c', found₀, good, saved) ↦
            let one : c₀ ≡ c = cc (found, found₀) in
            elim (closed_change request c final) [
              | inl bad ↦ absurd (cc (bad, good, one))
              | inr (same, closing) ↦
                  let kept : c' ≡ c = cc (same, good, one) in
                  (rw (saved, kept) (save_same k c t found), ground (arith, closing))
            ]
      ])
