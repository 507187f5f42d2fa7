-- ===== src/Complaint/Steps.antt =====
-- Every sequence of filings, requests and automatic closes, as a step relation
-- (backend/src/services/complaint.service.ts, backend/src/routes/complaint.routes.ts).
use ev_charger_management_pl.Prelude.{
  ℕ, ◌-◌, ◌≡◌, refl, subst, not, ◌==◌, ==_iff, some, Bool, true, Bool-cases, Option-cases, inl, inr,
  arith,
}
use mathlib.Core.Option
use ev_charger_management_pl.Prelude.Result.{Result-cases}
use ev_charger_management_pl.Prelude.Table.{
  Table, ObjectIds, IsTable, find_by_id, create, find_by_id-save, find_by_id-create, save-IsTable,
  create-IsTable,
}
use ev_charger_management_pl.Access.{AuthUser, is_driver}
use ev_charger_management_pl.Models.Session.{Text}
use ev_charger_management_pl.Store.{Store}
use ev_charger_management_pl.Complaint.Model.{resolved, auto_close_after_ms, Complaint}
use ev_charger_management_pl.Complaint.Service.{resolved_before, sweep_resolved_complaints}
use ev_charger_management_pl.Complaint.Triage.{StaffUser}
use ev_charger_management_pl.Complaint.Filing.{
  CreateComplaintInput, ResolvedAnchor, anchor_of, filed, create_complaint,
}
use ev_charger_management_pl.Complaint.Trail.{reopenings, IsTrail}
use ev_charger_management_pl.Complaint.Moves.{
  KeepsTrail, change_status-KeepsTrail, confirm-KeepsTrail, reopen-KeepsTrail, lapsed-IsTrail,
  edited-KeepsTrail, assigned-KeepsTrail,
}
use ev_charger_management_pl.Complaint.Refusals.{
  ComplaintRequest, set_status, update, assign, confirm, dispute, serve, serve_lem, change_of,
  on_complaint_cases,
}
use ev_charger_management_pl.Complaint.Sweep.{due_lapses, sweep_each, sweep-IsTable}

-- The history of every stored complaint is true.
pub record IsTraced (t : Table Complaint) : Type 0 where
  pub rows : IsTable t
  pub trails : (k : ℕ) (c : Complaint) → find_by_id k t ≡ some c → IsTrail c

-- The routes let only staff set a status.
abbrev pub routed : AuthUser → ComplaintRequest → Bool
routed actor (set_status to text) = not (is_driver actor.role)
routed actor request = true

-- One operation on complaints. Anyone may file one, and the driver's requests may come from any driver.
pub data ComplaintStep (trim : Text → Text) (ids : ObjectIds)
    : Table Complaint → Table Complaint → Type 1 where
  was_filed :
      (actor : AuthUser) (input : CreateComplaintInput) (db : Store) (t : Table Complaint)
      → ComplaintStep trim ids t (create_complaint ids actor input db t).1
  requested :
      (users : Table StaffUser) (now : ℕ) (actor : AuthUser) (k : ℕ) (request : ComplaintRequest)
      (t : Table Complaint)
      → routed actor request ≡ true
      → ComplaintStep trim ids t (serve trim users now actor k request t).1
  swept :
      (now : ℕ) (t : Table Complaint) → ComplaintStep trim ids t (sweep_resolved_complaints now t).1

pub data ComplaintSteps (trim : Text → Text) (ids : ObjectIds) (start : Table Complaint)
    : Table Complaint → Type 1 where
  none_yet : ComplaintSteps trim ids start start
  then_one :
      (t t' : Table Complaint)
      → ComplaintSteps trim ids start t
      → ComplaintStep trim ids t t'
      → ComplaintSteps trim ids start t'

change-KeepsTrail :
    (trim : Text → Text) (users : Table StaffUser) (now : ℕ) (actor : AuthUser) (k : ℕ)
    (request : ComplaintRequest) (c : Complaint)
    → routed actor request ≡ true
    → IsTrail c
    → KeepsTrail (change_of trim users now actor k request c)
change-KeepsTrail trim users now actor k (set_status to text) c staff h =
    change_status-KeepsTrail trim now actor to text c (ground arith) h
change-KeepsTrail trim users now actor k (update input) c staff h =
    edited-KeepsTrail now input actor c h
change-KeepsTrail trim users now actor k (assign assignee) c staff h =
    assigned-KeepsTrail users now assignee actor c h
change-KeepsTrail trim users now actor k confirm c staff h = confirm-KeepsTrail now actor c h
change-KeepsTrail trim users now actor k (dispute reason) c staff h =
    reopen-KeepsTrail trim now reason actor c h

serve-IsTraced :
    (trim : Text → Text) (users : Table StaffUser) (now : ℕ) (actor : AuthUser) (k : ℕ)
    (request : ComplaintRequest) (t : Table Complaint)
    → routed actor request ≡ true
    → IsTraced t
    → IsTraced (serve trim users now actor k request t).1
serve-IsTraced trim users now actor k request t staff h =
    rw serve_lem (elim (on_complaint_cases actor k (change_of trim users now actor k request) t) [
      | inl (bad, kept) ↦ rw kept h
      | inr (c, c', found, good, saved) ↦
          let fine : IsTrail c' =
            subst KeepsTrail good
              (change-KeepsTrail trim users now actor k request c staff (h.trails k c found)) in
          rw saved (record {
            rows = save-IsTable k c' t h.rows;
            trails = λ j x at. elim (Bool-cases (k == j)) [
              | inl same ↦ subst IsTrail (ground (arith, find_by_id-save j k c' t)) fine
              | inr else ↦ h.trails j x (ground (arith, find_by_id-save j k c' t))
            ];
          })
    ])

filed-IsTrail :
    (actor : AuthUser) (input : CreateComplaintInput) (anchor : ResolvedAnchor) (db : Store)
    → IsTrail (filed actor input anchor db.sessions)
unfolding reopenings
filed-IsTrail actor input anchor db = record { leads = refl; counted = refl }

added-IsTraced :
    (ids : ObjectIds) (t : Table Complaint) (c : Complaint)
    → IsTraced t
    → IsTrail c
    → IsTraced (create (ids.fresh Complaint t) c t)
added-IsTraced ids t c h fine = record {
  rows = create-IsTable (ids.fresh Complaint t) c t (ids.unused Complaint t) h.rows;
  trails = λ j x at. elim (Bool-cases (ids.fresh Complaint t == j)) [
    | inl same ↦
        subst IsTrail
          (ground (
            arith,
            find_by_id-create j (ids.fresh Complaint t) c t,
            ids.unused Complaint t,
            ==_iff (ids.fresh Complaint t) j,
          ))
          fine
    | inr else ↦ h.trails j x (ground (arith, find_by_id-create j (ids.fresh Complaint t) c t))
  ];
}

create-IsTraced :
    (ids : ObjectIds) (actor : AuthUser) (input : CreateComplaintInput) (db : Store)
    (t : Table Complaint)
    → IsTraced t
    → IsTraced (create_complaint ids actor input db t).1
unfolding create_complaint
create-IsTraced ids actor input db t h = elim (Result-cases (anchor_of actor input db t)) [
  | inl (e, bad) ↦ rw (bad, create_complaint) h
  | inr (anchor, good) ↦
      rw (good, create_complaint) (added-IsTraced ids t _ h (filed-IsTrail actor input anchor db))
]

resolved_before-status :
    (cutoff : ℕ) (c : Complaint) → resolved_before cutoff c ≡ true → c.status ≡ resolved
resolved_before-status cutoff c h = ground arith

due_lapses-IsTrail : (now : ℕ) (c : Complaint) → IsTrail c → IsTrail (due_lapses now c)
due_lapses-IsTrail now c h = elim (Bool-cases (resolved_before (now - auto_close_after_ms) c)) [
  | inl due ↦ rw due (lapsed-IsTrail now c (resolved_before-status _ c due) h)
  | inr young ↦ rw young h
]

sweep-IsTraced :
    (now : ℕ) (t : Table Complaint) → IsTraced t → IsTraced (sweep_resolved_complaints now t).1
sweep-IsTraced now t h = record {
  rows = sweep-IsTable now t h.rows;
  trails = λ j c at. elim (Option-cases (find_by_id j t)) [
    | inl gone ↦ absurd (cc (sweep_each now j t h.rows, gone, at))
    | inr (x, found) ↦
        let left : Option.map (due_lapses now) (some x) ≡ some c =
          cc (sweep_each now j t h.rows, found, at) in
        subst IsTrail (cc (left)) (due_lapses-IsTrail now x (h.trails j x found))
  ];
}

ComplaintStep-IsTraced :
    (trim : Text → Text) (ids : ObjectIds) (t t' : Table Complaint)
    → IsTraced t
    → ComplaintStep trim ids t t'
    → IsTraced t'
ComplaintStep-IsTraced trim ids _ _ h (was_filed actor input db t) =
    create-IsTraced ids actor input db t h
ComplaintStep-IsTraced trim ids _ _ h (requested users now actor k request t staff) =
    serve-IsTraced trim users now actor k request t staff h
ComplaintStep-IsTraced trim ids _ _ h (swept now t) = sweep-IsTraced now t h

-- Whatever sequence of filings, requests and automatic closes leads from complaints with true
-- histories, the complaints that it leads to have true histories: from the filing on, each entry
-- starts where the one before it ended, its move is one that its maker's role may make for the
-- category, the last one ends in the status, and the count of reopenings is that of the history.
pub ComplaintSteps-IsTraced :
    (trim : Text → Text) (ids : ObjectIds) (start t : Table Complaint)
    → IsTraced start
    → ComplaintSteps trim ids start t
    → IsTraced t
ComplaintSteps-IsTraced trim ids start _ h none_yet = h
ComplaintSteps-IsTraced trim ids start _ h (then_one t t' before step) =
    ComplaintStep-IsTraced trim ids t t' (ComplaintSteps-IsTraced trim ids start t h before) step
