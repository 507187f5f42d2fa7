-- ===== src/Session/LastSeen.antt =====
-- When a charge was last seen, from the moments of its readings
-- (backend/src/utils/sessionEnd.ts), and what becomes of a session that broke off.
use ev_charger_management_pl.Prelude.{
  ℕ, ◌≤◌, ◌≡◌, ◌≢◌, ◌∙◌, ap, refl, Option, none, some, Bool, false, ◌&&◌, ◌==◌, ==_iff, ltb, min,
  max, if◌then◌else◌, List, [], ◌∷◌, ◌⊎◌, inl, inr, Bool-cases, arith,
}
use ev_charger_management_pl.Prelude.Table.{Table, IsTable, find_by_id, find_one}
use ev_charger_management_pl.Models.Session.{
  ChargingSession, MeterReading, StopReason, FailureReason, failed, bill, paid_if_free,
  compute_amount_bill,
}
use ev_charger_management_pl.Session.Events.{consumed_wh}
use ev_charger_management_pl.Session.Failing.{
  latest_reading, later, evidence, last_evidence_of_charging, broken_off,
}
use ev_charger_management_pl.Session.Releasing.{failed_at_last_evidence}

-- The moments of a session's readings.
unfoldable pub moments : ℕ → Table MeterReading → List ℕ
moments session_id [] = []
moments session_id ((k, r) ∷ t) =
    let rest = moments session_id t in
    if r.session_id == session_id then r.meter_timestamp ∷ rest else rest

unfoldable pub greatest : ℕ → List ℕ → ℕ
greatest base [] = base
greatest base (m ∷ ms) = max m (greatest base ms)

-- The last of the moments and the start, or now where there is none of either; never after now.
unfoldable pub last_seen : (now : ℕ) → (started_at : Option ℕ) → List ℕ → ℕ
unfolding greatest
last_seen now (some start) ms = min now (greatest start ms)
last_seen now none [] = now
last_seen now none (m ∷ ms) = min now (greatest 0 (m ∷ ms))

-- What the latest reading is, of the moments.
abbrev IsGreatest : (latest : Option ℕ) → List ℕ → Type 0
IsGreatest none ms = ms ≡ []
IsGreatest (some top) ms = (ms ≢ []) × ((base : ℕ) → greatest base ms ≡ max base top)

IsGreatest-cons :
    (latest : Option ℕ) (m : ℕ) (ms : List ℕ)
    → IsGreatest latest ms
    → IsGreatest (some (later latest m)) (m ∷ ms)
unfolding greatest
IsGreatest-cons none m ms h = (λ e. absurd (ground (arith, e)), λ base. rw h (omega arith))
IsGreatest-cons (some top) m ms h =
    (λ e. absurd (ground (arith, e)), λ base. omega (arith, h.1 base))

latest_reading-IsGreatest :
    (session_id : ℕ) (t : Table MeterReading)
    → IsGreatest (latest_reading session_id t) (moments session_id t)
unfolding moments latest_reading
latest_reading-IsGreatest session_id [] = refl
latest_reading-IsGreatest session_id ((k, r) ∷ t) = elim (Bool-cases (r.session_id == session_id)) [
  | inl own ↦ rw own (
      IsGreatest-cons (latest_reading session_id t) r.meter_timestamp (moments session_id t)
        (latest_reading-IsGreatest session_id t))
  | inr other ↦ rw other (latest_reading-IsGreatest session_id t)
]

evidence-last_seen :
    (now : ℕ) (latest started_at : Option ℕ) (ms : List ℕ)
    → IsGreatest latest ms
    → evidence now latest started_at ≡ last_seen now started_at ms
unfolding last_seen greatest
evidence-last_seen now none none ms h = rw h (omega arith)
evidence-last_seen now none (some start) ms h = rw h (omega arith)
evidence-last_seen now (some top) none [] h = absurd (h.0 refl)
evidence-last_seen now (some top) none (m ∷ ms) h = omega (arith, h.1 0)
evidence-last_seen now (some top) (some start) ms h = omega (arith, h.1 start)

-- The last evidence of a charge is the last of the moments of its readings and its start, or now where
-- there is none of either; never after now.
pub last_evidence-last_seen :
    (now session_id : ℕ) (s : ChargingSession) (readings : Table MeterReading)
    → last_evidence_of_charging now session_id s readings
      ≡ last_seen now s.started_at (moments session_id readings)
unfolding last_evidence_of_charging
last_evidence-last_seen now session_id s readings =
    evidence-last_seen now (latest_reading session_id readings) s.started_at
      (moments session_id readings) (latest_reading-IsGreatest session_id readings)

-- A session that failed when it was last seen, with its bill.
abbrev pub cut_off :
    (now : ℕ)
    → StopReason
    → FailureReason
    → Table MeterReading
    → ℕ
    → ChargingSession
    → ChargingSession
cut_off now stop_reason failure_reason readings id s =
    let energy = consumed_wh s.start_meter_wh s.last_meter_wh in
    let rate = s.applied_price_per_kwh_paise in
    record s {
      status = failed;
      ended_at = some (last_seen now s.started_at (moments id readings));
      end_meter_wh = s.last_meter_wh;
      energy_consumed_wh = energy;
      stop_reason = some stop_reason;
      failure_reason = some failure_reason;
      amount_paise = bill s.amount_paise rate energy;
      payment_status = paid_if_free s.amount_paise rate energy s.payment_status;
    }

pub failed-cut_off :
    (now : ℕ) (stop_reason : StopReason) (failure_reason : FailureReason)
    (readings : Table MeterReading) (id : ℕ) (s : ChargingSession)
    → failed_at_last_evidence now stop_reason failure_reason readings id s
      ≡ cut_off now stop_reason failure_reason readings id s
failed-cut_off now stop_reason failure_reason readings id s =
    compute_amount_bill
      (broken_off (last_evidence_of_charging now id s readings) stop_reason failure_reason s) refl
    ∙ ap
        (λ at. record (cut_off now stop_reason failure_reason readings id s) { ended_at = some at })
        (last_evidence-last_seen now id s readings)

-- Whether a reading is the session's and its moment, cut down to now, is after another.
abbrev pub is_later : (now session_id at : ℕ) → MeterReading → Bool
is_later now session_id at r = r.session_id == session_id && ltb at (min now r.meter_timestamp)

none_later :
    (now session_id start at : ℕ) (t : Table MeterReading)
    → min now (greatest start (moments session_id t)) ≤ at
    → find_one (is_later now session_id at) t ≡ none
unfolding find_one greatest moments
none_later now session_id start at [] h = refl
none_later now session_id start at ((k, r) ∷ t) h = elim (Bool-cases (r.session_id == session_id)) [
  | inl own ↦
      let le = rw own at h in
      let past : ltb at (min now r.meter_timestamp) ≡ false = ground (arith, le) in
      rw (own, past) (none_later now session_id start at t (omega (arith, le)))
  | inr other ↦ rw other (none_later now session_id start at t (rw other at h))
]

-- A stored reading of the session that was taken at a moment.
abbrev pub IsReading : (session_id at : ℕ) → Table MeterReading → Type 0
IsReading session_id at t =
    (j : ℕ) × (r : MeterReading) × (find_by_id j t ≡ some r)
    × (r.session_id ≡ session_id)
    × (r.meter_timestamp ≡ at)

below :
    (k session_id at : ℕ) (x : MeterReading) (t : Table MeterReading)
    → find_by_id k t ≡ none
    → IsReading session_id at t
    → IsReading session_id at ((k, x) ∷ t)
unfolding find_by_id
below k session_id at x t fresh (j, r, stored, own, taken) =
    (j, r, ground (arith, fresh, stored, ==_iff k j), own, taken)

attained :
    (session_id start : ℕ) (t : Table MeterReading)
    → IsTable t
    → (greatest start (moments session_id t) ≡ start)
      ⊎ IsReading session_id (greatest start (moments session_id t)) t
unfolding IsTable find_by_id greatest moments
attained session_id start [] h = inl refl
attained session_id start ((k, r) ∷ t) (fresh, proper) =
    elim (Bool-cases (r.session_id == session_id)) [
      | inl own ↦
          rw own
            (elim (Bool-cases (ltb r.meter_timestamp (greatest start (moments session_id t)))) [
              | inl less ↦
                  let top : max r.meter_timestamp (greatest start (moments session_id t))
                      ≡ greatest start (moments session_id t) =
                    ground (arith, less) in
                  rw top (elim (attained session_id start t proper) [
                    | inl begin ↦ inl begin
                    | inr there ↦ inr (below k session_id _ r t fresh there)
                  ])
              | inr more ↦
                  let top : max r.meter_timestamp (greatest start (moments session_id t))
                      ≡ r.meter_timestamp =
                    ground (arith, more) in
                  rw top (inr (k, r, ground arith, ground (arith, own), refl))
            ])
      | inr other ↦ rw other (elim (attained session_id start t proper) [
        | inl begin ↦ inl begin
        | inr there ↦ inr (below k session_id _ r t fresh there)
      ])
    ]

greatest_over : (base : ℕ) (ms : List ℕ) → base ≤ greatest base ms
unfolding greatest
greatest_over base [] = omega arith
greatest_over base (m ∷ ms) = omega (arith, greatest_over base ms)

capped :
    (now start top session_id : ℕ) (t : Table MeterReading)
    → start ≤ now
    → (top ≡ start) ⊎ IsReading session_id top t
    → (min now top ≡ start) ⊎ ((at : ℕ) × IsReading session_id at t × (min now top ≡ min now at))
capped now start top session_id t past (inl same) = inl (omega (arith, same, past))
capped now start top session_id t past (inr there) = inr (top, there, refl)

-- For a charge that started before now, the moment that it broke off lies between its start and now.
-- No reading of the session, cut down to now, is later, and the moment is the start itself or that of a
-- stored reading of the session, cut down to now.
pub evidence_bounds :
    (now session_id start : ℕ) (s : ChargingSession) (readings : Table MeterReading)
    → s.started_at ≡ some start
    → start ≤ now
    → IsTable readings
    → let e = last_evidence_of_charging now session_id s readings in
      (start ≤ e)
      × (e ≤ now)
      × (find_one (is_later now session_id e) readings ≡ none)
      × ((e ≡ start) ⊎ ((at : ℕ) × IsReading session_id at readings × (e ≡ min now at)))
unfolding last_seen
evidence_bounds now session_id start s readings began past proper =
    let top = greatest start (moments session_id readings) in
    rw (last_evidence-last_seen now session_id s readings, began)
      (
        omega (arith, greatest_over start (moments session_id readings)),
        omega arith,
        none_later now session_id start (min now top) readings (omega arith),
        capped now start top session_id readings past (attained session_id start readings proper),
      )
