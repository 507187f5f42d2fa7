-- ===== src/Complaint/Moves.antt =====
-- Every operation on complaints keeps the history of each true, so that any sequence of operations
-- does (backend/src/services/complaint.service.ts).
use ev_charger_management_pl.Prelude.{
  ℕ, ◌≡◌, ◌⊎◌, refl, sym, ◌∙◌, Option, some, none, true, false, not, ◌&&◌, is_none, or_else,
  Bool-cases, inl, inr, arith,
}
use ev_charger_management_pl.Prelude.Result.{Result, ok, err, is_ok}
use ev_charger_management_pl.Access.{AuthUser, is_driver, is_operator}
use ev_charger_management_pl.Models.Session.{Text}
use ev_charger_management_pl.Complaint.Model.{
  ComplaintCategory, ComplaintStatus, opened, in_progress, resolved, closed, same_status,
  includes_status, allowed_transitions, includes_category, operator_resolvable_categories,
  ComplaintActor, actor_of, written, driver_confirmed, closed_automatically, Complaint,
}
use ev_charger_management_pl.Complaint.Lifecycle.{
  ComplaintError, is_admin_only, trimmed, says_nothing, picked_up, note_of, moved, explain_and_move,
  change_status, confirm_resolved, reopen,
}
use ev_charger_management_pl.Complaint.Service.{lapsed}
use ev_charger_management_pl.Complaint.Triage.{
  UpdateComplaintInput, edited, StaffUser, takes_or_releases, assignable, assigned,
}
use ev_charger_management_pl.Complaint.Trail.{
  permits, IsTrail, apply_transition-IsTrail, staff_permits,
}
use ev_charger_management_pl.Prelude.Table.{Table}

-- A change that succeeds leaves a true history.
abbrev pub KeepsTrail : Result ComplaintError Complaint → Type 0
KeepsTrail (ok c) = IsTrail c
KeepsTrail (err e) = Unit

failed-KeepsTrail : (r : Result ComplaintError Complaint) → is_ok r ≡ false → KeepsTrail r
failed-KeepsTrail (ok c) h = absurd (cc (h))
failed-KeepsTrail (err e) h = tt

driver_may :
    (category : ComplaintCategory) (from to : ComplaintStatus)
    → same_status from resolved ≡ true
    → (to ≡ opened) ⊎ (to ≡ closed)
    → permits category ComplaintActor.driver from to ≡ true
driver_may category from to concluded h = ground arith

picked_up-IsTrail :
    (now : ℕ) (actor : AuthUser) (to : ComplaintStatus) (c : Complaint)
    → IsTrail c
    → IsTrail (picked_up now actor to c)
picked_up-IsTrail now actor opened c h = h
picked_up-IsTrail now actor in_progress c h = elim (Bool-cases (is_none c.assigned_to)) [
  | inl nobody ↦ rw nobody (record { leads = h.leads; counted = h.counted })
  | inr somebody ↦ rw somebody h
]
picked_up-IsTrail now actor resolved c h = h
picked_up-IsTrail now actor closed c h = h

-- The resolution is not part of the history.
with_resolution-IsTrail :
    (text : Option Text) (c : Complaint) → IsTrail c → IsTrail (record c { resolution = text })
with_resolution-IsTrail text c h = record { leads = h.leads; counted = h.counted }

moved-KeepsTrail :
    (now : ℕ) (actor : AuthUser) (to : ComplaintStatus) (text : Option Text) (c : Complaint)
    → IsTrail c
    → permits c.category (actor_of actor.role) c.status to ≡ true
    → KeepsTrail (moved now actor to text c)
moved-KeepsTrail now actor to text c h may =
    picked_up-IsTrail now actor to _
      (apply_transition-IsTrail now to (actor_of actor.role) (some actor.id) (note_of text) c h may)

explain-KeepsTrail :
    (trim : Text → Text) (now : ℕ) (actor : AuthUser) (to : ComplaintStatus) (text : Option Text)
    (c : Complaint)
    → IsTrail c
    → permits c.category (actor_of actor.role) c.status to ≡ true
    → KeepsTrail (explain_and_move trim now actor to text c)
unfolding explain_and_move
explain-KeepsTrail trim now actor opened text c h may =
    moved-KeepsTrail now actor opened text c h may
explain-KeepsTrail trim now actor in_progress text c h may =
    moved-KeepsTrail now actor in_progress text c h may
explain-KeepsTrail trim now actor resolved text c h may =
    let said = or_else text c.resolution in
    elim (Bool-cases (says_nothing trim said)) [
      | inl silent ↦ rw silent tt
      | inr told ↦ rw told (
          moved-KeepsTrail now actor resolved said (record c { resolution = said })
            (with_resolution-IsTrail said c h) may)
    ]
explain-KeepsTrail trim now actor closed text c h may =
    elim (Bool-cases (same_status c.status resolved)) [
      | inl concluded ↦ rw concluded (moved-KeepsTrail now actor closed text c h may)
      | inr early ↦ elim (Bool-cases (is_none text)) [
        | inl silent ↦ rw (early, silent) tt
        | inr told ↦
            rw (early, told)
              (moved-KeepsTrail now actor closed text (record c { resolution = text })
                (with_resolution-IsTrail text c h) may)
      ]
    ]

-- What a change of status does: nothing, an error, or a move that its guards let through.
pub change_status_cases :
    (trim : Text → Text) (now : ℕ) (actor : AuthUser) (to : ComplaintStatus) (text : Option Text)
    (c : Complaint)
    → let r = change_status trim now actor to text c in
      (r ≡ ok c)
      ⊎ (is_ok r ≡ false)
      ⊎ ((includes_status to (allowed_transitions c.status)
              && not (is_operator actor.role && is_admin_only c.status to)
              && not (
                  is_operator actor.role
                  && same_status to resolved
                  && not (includes_category c.category operator_resolvable_categories))
            ≡ true)
          × (r ≡ explain_and_move trim now actor to (trimmed trim text) c))
unfolding change_status
change_status_cases trim now actor to text c = elim (Bool-cases (same_status c.status to)) [
  | inl same ↦ inl (rw (same, change_status) refl)
  | inr new ↦ elim (Bool-cases (includes_status to (allowed_transitions c.status))) [
    | inr illegal ↦ inr (inl (rw (new, illegal, change_status) refl))
    | inl legal ↦ elim (Bool-cases (is_operator actor.role && is_admin_only c.status to)) [
      | inl conclude ↦ inr (inl (rw (new, legal, conclude, change_status) refl))
      | inr work ↦
          elim (Bool-cases (
            is_operator actor.role
            && same_status to resolved
            && not (includes_category c.category operator_resolvable_categories))) [
              | inl money ↦ inr (inl (rw (new, legal, work, money, change_status) refl))
              | inr fine ↦ inr (
                  inr
                    (rw (legal, work, fine) refl, rw (new, legal, work, fine, change_status) refl))
            ]
    ]
  ]
]

-- A change of status by staff keeps the history true.
pub change_status-KeepsTrail :
    (trim : Text → Text) (now : ℕ) (actor : AuthUser) (to : ComplaintStatus) (text : Option Text)
    (c : Complaint)
    → is_driver actor.role ≡ false
    → IsTrail c
    → KeepsTrail (change_status trim now actor to text c)
change_status-KeepsTrail trim now actor to text c staff h =
    elim (change_status_cases trim now actor to text c) [
      | inl same ↦ rw same h
      | inr (inl refused) ↦ failed-KeepsTrail (change_status trim now actor to text c) refused
      | inr (inr (guards, e)) ↦
          let may : permits c.category (actor_of actor.role) c.status to ≡ true =
            sym (staff_permits c.category actor.role c.status to staff) ∙ guards in
          rw e (explain-KeepsTrail trim now actor to (trimmed trim text) c h may)
    ]

resolved_lem : (s : ComplaintStatus) → same_status s resolved ≡ true → s ≡ resolved
resolved_lem s h = ground arith

pub confirm-KeepsTrail :
    (now : ℕ) (actor : AuthUser) (c : Complaint)
    → IsTrail c
    → KeepsTrail (confirm_resolved now actor c)
unfolding confirm_resolved
confirm-KeepsTrail now actor c h = elim (Bool-cases (same_status c.status resolved)) [
  | inr other ↦ rw other tt
  | inl concluded ↦ rw concluded (
      apply_transition-IsTrail now closed ComplaintActor.driver (some actor.id)
        (some driver_confirmed) c h (driver_may c.category c.status closed concluded (inr refl)))
]

pub reopen-KeepsTrail :
    (trim : Text → Text) (now : ℕ) (reason : Text) (actor : AuthUser) (c : Complaint)
    → IsTrail c
    → KeepsTrail (reopen trim now reason actor c)
unfolding reopen
reopen-KeepsTrail trim now reason actor c h = elim (Bool-cases (same_status c.status resolved)) [
  | inr other ↦ rw other tt
  | inl concluded ↦ rw concluded (
      apply_transition-IsTrail now opened ComplaintActor.driver (some actor.id)
        (some (written (trim reason))) c h
        (driver_may c.category c.status opened concluded (inl refl)))
]

pub lapsed-IsTrail :
    (now : ℕ) (c : Complaint) → c.status ≡ resolved → IsTrail c → IsTrail (lapsed now c)
lapsed-IsTrail now c concluded h =
    apply_transition-IsTrail now closed ComplaintActor.system none (some closed_automatically) c h
      (rw concluded refl)

pub edited-KeepsTrail :
    (now : ℕ) (input : UpdateComplaintInput) (actor : AuthUser) (c : Complaint)
    → IsTrail c
    → KeepsTrail (edited now input actor c)
unfolding edited
edited-KeepsTrail now input actor c h = elim (Bool-cases (same_status c.status closed)) [
  | inl final ↦ rw final tt
  | inr live ↦ rw live (record { leads = h.leads; counted = h.counted })
]

pub assigned-KeepsTrail :
    (users : Table StaffUser) (now : ℕ) (assignee : Option ℕ) (actor : AuthUser) (c : Complaint)
    → IsTrail c
    → KeepsTrail (assigned users now assignee actor c)
unfolding assigned
assigned-KeepsTrail users now assignee actor c h = elim (Bool-cases (same_status c.status closed)) [
  | inl final ↦ rw final tt
  | inr live ↦
      elim (Bool-cases (is_operator actor.role && not (takes_or_releases actor assignee c))) [
        | inl reassigning ↦ rw (live, reassigning) tt
        | inr own ↦ elim (Bool-cases (assignable users c assignee)) [
          | inr unseen ↦ rw (live, own, unseen) tt
          | inl seen ↦ rw (live, own, seen) (record { leads = h.leads; counted = h.counted })
        ]
      ]
]
