-- ===== src/Complaint/Sweep.antt =====
-- What one run of the automatic close leaves (`sweepResolvedComplaints` of
-- backend/src/services/complaint.service.ts).
use ev_charger_management_pl.Prelude.{
  ℕ, ◌-◌, ◌≡◌, ◌∙◌, refl, ap, if◌then◌else◌, [], ◌∷◌, ◌++◌, Option, some, none, Bool, false, ltb,
}
use mathlib.Core.Option
use ev_charger_management_pl.Prelude.Table.{Table, find_by_id, IsTable}
use ev_charger_management_pl.Prelude.Each.{save_each, save_each-find_all, save_each-IsTable}
use ev_charger_management_pl.Complaint.Model.{
  ComplaintStatus, opened, in_progress, resolved, closed, auto_close_after_ms, ComplaintActor,
  closed_automatically, Complaint,
}
use ev_charger_management_pl.Complaint.Lifecycle.{apply_transition}
use ev_charger_management_pl.Complaint.Service.{
  lapsed, resolved_before, close_each, sweep_resolved_complaints,
}

pub close_each_lem :
    (now : ℕ) (due t : Table Complaint)
    → close_each now due t ≡ save_each (λ k c. lapsed now c) due t
unfolding close_each save_each
close_each_lem now [] t = refl
close_each_lem now ((k, c) ∷ due) t = close_each_lem now due _

-- The automatic close of one complaint, where it is due.
abbrev pub due_lapses : (now : ℕ) → Complaint → Complaint
due_lapses now c = if resolved_before (now - auto_close_after_ms) c then lapsed now c else c

pub sweep_each :
    (now j : ℕ) (t : Table Complaint)
    → IsTable t
    → find_by_id j (sweep_resolved_complaints now t).1
      ≡ Option.map (due_lapses now) (find_by_id j t)
unfolding sweep_resolved_complaints
sweep_each now j t h =
    ap (find_by_id j) (close_each_lem now _ t)
    ∙ save_each-find_all (λ k c. lapsed now c) (resolved_before (now - auto_close_after_ms)) j t h

-- Whether a complaint was resolved longer ago than the limit.
abbrev pub is_due : (now : ℕ) → ComplaintStatus → (resolved_at : Option ℕ) → Bool
is_due now resolved (some at) = ltb at (now - auto_close_after_ms)
is_due now _ _ = false

-- A complaint that the system closed.
abbrev pub closed_record : (now : ℕ) → Complaint → Complaint
closed_record now c = record c {
  status = closed;
  history =
      c.history
      ++ (record {
        from = resolved;
        to = closed;
        by_role = ComplaintActor.system;
        by_user_id = none;
        note = some closed_automatically;
        moved_at = now;
      })
        ∷ [];
}

-- What a run makes of a complaint: where it is due, the same one closed, with one more entry in its
-- history.
abbrev pub closed_if_due : (now : ℕ) → Complaint → Complaint
closed_if_due now c = if is_due now c.status c.resolved_at then closed_record now c else c

map_same :
    (f g : Complaint → Complaint)
    → ((c : Complaint) → f c ≡ g c)
    → (o : Option Complaint) → Option.map f o ≡ Option.map g o
map_same f g same none = refl
map_same f g same (some c) = rw (same c) refl

due_lapses-closed : (now : ℕ) (c : Complaint) → due_lapses now c ≡ closed_if_due now c
unfolding apply_transition
due_lapses-closed now c = go c c.status c.resolved_at refl refl
  where
    go :
        (c : Complaint) (s : ComplaintStatus) (at : Option ℕ)
        → c.status ≡ s
        → c.resolved_at ≡ at
        → due_lapses now c ≡ (if is_due now s at then closed_record now c else c)
    go c opened at e r = rw e refl
    go c in_progress at e r = rw e refl
    go c resolved none e r = rw (e, r) refl
    go c resolved (some at) e r = rw (e, r) refl
    go c closed at e r = rw e refl

-- A run closes the complaints that were resolved longer ago than the limit: each keeps what it says,
-- who resolved it and when, is closed, and has one more entry in its history, by which the system moved
-- it from resolved to closed now. Every other complaint is left as it is.
pub sweep_exact :
    (now j : ℕ) (t : Table Complaint)
    → IsTable t
    → find_by_id j (sweep_resolved_complaints now t).1
      ≡ Option.map (closed_if_due now) (find_by_id j t)
sweep_exact now j t h =
    sweep_each now j t h
    ∙ map_same (due_lapses now) (closed_if_due now) (due_lapses-closed now) (find_by_id j t)

pub sweep-IsTable :
    (now : ℕ) (t : Table Complaint) → IsTable t → IsTable (sweep_resolved_complaints now t).1
unfolding sweep_resolved_complaints
sweep-IsTable now t h = rw close_each_lem (save_each-IsTable (λ k c. lapsed now c) _ t h)
