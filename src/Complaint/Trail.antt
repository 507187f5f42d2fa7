-- ===== src/Complaint/Trail.antt =====
-- The lifecycle as it is meant: who may make which move of a complaint, and what a history says when
-- every move was one of those (backend/src/services/complaint.service.ts,
-- backend/src/constants/complaint.ts).
use ev_charger_management_pl.Prelude.{
  ℕ, ◌+◌, ◌≡◌, refl, Option, Bool, true, false, not, ◌&&◌, if◌then◌else◌, List, [], ◌∷◌, ◌++◌,
  arith,
}
use ev_charger_management_pl.Access.{Role, is_driver, is_operator}
use ev_charger_management_pl.Complaint.Model.{
  ComplaintCategory, payment_issue, account_issue, ComplaintStatus, opened, in_progress, resolved,
  closed, same_status, includes_status, allowed_transitions, includes_category,
  operator_resolvable_categories, admin_only_transitions, ComplaintActor, driver, operator,
  cpo_admin, super_admin, system, actor_of, HistoryNote, ComplaintHistoryEntry, Complaint,
}
use ev_charger_management_pl.Complaint.Lifecycle.{apply_transition, is_admin_only}

-- The problems that can be fixed on site: not the ones about money or an account.
abbrev pub fixable_on_site : ComplaintCategory → Bool
fixable_on_site payment_issue = false
fixable_on_site account_issue = false
fixable_on_site _ = true

-- The moves of an administrator: anything but skipping the work or touching a closed complaint.
abbrev pub admin_may : ComplaintStatus → ComplaintStatus → Bool
admin_may opened in_progress = true
admin_may opened closed = true
admin_may in_progress opened = true
admin_may in_progress resolved = true
admin_may in_progress closed = true
admin_may resolved opened = true
admin_may resolved closed = true
admin_may _ _ = false

-- An operator takes work up, puts it back, and concludes what can be fixed on site; a driver agrees
-- with a resolution or disputes it; the passing of time closes what was resolved.
abbrev pub permits : ComplaintCategory → ComplaintActor → ComplaintStatus → ComplaintStatus → Bool
permits category operator opened in_progress = true
permits category operator in_progress opened = true
permits category operator in_progress resolved = fixable_on_site category
permits category operator _ _ = false
permits category driver resolved opened = true
permits category driver resolved closed = true
permits category driver _ _ = false
permits category system resolved closed = true
permits category system _ _ = false
permits category cpo_admin from to = admin_may from to
permits category super_admin from to = admin_may from to

-- The entries lead from one status to another, each by a move that its maker may make.
abbrev pub Leads :
    ComplaintCategory → ComplaintStatus → List ComplaintHistoryEntry → ComplaintStatus → Type 0
Leads category from [] to = from ≡ to
Leads category from (e ∷ later) to =
    (e.from ≡ from) × (permits category e.by_role e.from e.to ≡ true) × Leads category e.to later to

-- How often the history goes from resolved back to open.
unfoldable pub reopenings : List ComplaintHistoryEntry → ℕ
reopenings [] = 0
reopenings (e ∷ later) =
    (if same_status e.from resolved && same_status e.to opened then 1 else 0) + reopenings later

-- The history explains the status and the count, from the filing on.
pub record IsTrail (c : Complaint) : Type 0 where
  pub leads : Leads c.category opened c.history c.status
  pub counted : c.reopen_count ≡ reopenings c.history

Leads-append :
    (category : ComplaintCategory) (a b : ComplaintStatus) (l : List ComplaintHistoryEntry)
    (e : ComplaintHistoryEntry)
    → Leads category a l b
    → e.from ≡ b
    → permits category e.by_role e.from e.to ≡ true
    → Leads category a (l ++ e ∷ []) e.to
Leads-append category a b [] e h from may = (ground (arith, h, from), may, refl)
Leads-append category a b (x ∷ l) e h from may =
    (h.0, h.1, Leads-append category x.to b l e h.2 from may)

reopenings-append :
    (l : List ComplaintHistoryEntry) (e : ComplaintHistoryEntry)
    → reopenings (l ++ e ∷ [])
      ≡ reopenings l + (if same_status e.from resolved && same_status e.to opened then 1 else 0)
unfolding reopenings
reopenings-append [] e = omega arith
reopenings-append (x ∷ l) e = omega (arith, reopenings-append l e)

apply_transition_count :
    (now : ℕ) (to : ComplaintStatus) (role : ComplaintActor) (user : Option ℕ)
    (why : Option HistoryNote) (c : Complaint)
    → (apply_transition now to role user why c).reopen_count
      ≡ c.reopen_count + (if same_status c.status resolved && same_status to opened then 1 else 0)
unfolding apply_transition
apply_transition_count now to role user why c = ground arith

apply_transition_category :
    (now : ℕ) (to : ComplaintStatus) (role : ComplaintActor) (user : Option ℕ)
    (why : Option HistoryNote) (c : Complaint)
    → (apply_transition now to role user why c).category ≡ c.category
unfolding apply_transition
apply_transition_category now to role user why c = ground arith

-- A transition that its maker may make keeps the history true.
pub apply_transition-IsTrail :
    (now : ℕ) (to : ComplaintStatus) (role : ComplaintActor) (user : Option ℕ)
    (why : Option HistoryNote) (c : Complaint)
    → IsTrail c
    → permits c.category role c.status to ≡ true
    → IsTrail (apply_transition now to role user why c)
unfolding apply_transition
apply_transition-IsTrail now to role user why c h may = record {
  leads =
      rw apply_transition_category
        (Leads-append c.category opened c.status c.history _ h.leads refl may);
  counted = omega (
    arith,
    apply_transition_count now to role user why c,
    h.counted,
    reopenings-append c.history _,
  );
}

-- The guards of the code let staff make exactly the moves that are meant for them.
pub staff_permits :
    (category : ComplaintCategory) (role : Role) (from to : ComplaintStatus)
    → is_driver role ≡ false
    → includes_status to (allowed_transitions from)
        && not (is_operator role && is_admin_only from to)
        && not (
            is_operator role
            && same_status to resolved
            && not (includes_category category operator_resolvable_categories))
      ≡ permits category (actor_of role) from to
unfolding allowed_transitions is_admin_only admin_only_transitions operator_resolvable_categories
staff_permits category role from to staff = ground arith
