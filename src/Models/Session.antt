-- ===== src/Models/Session.antt =====
-- Charging sessions and meter readings: backend/src/models/chargingSession.model.ts,
-- backend/src/models/meterReading.model.ts and backend/src/constants/session.ts, with the hook that
-- prices a session when it ends. Meters and energies are in hundredths of a watt-hour, moments in
-- milliseconds. Texts that are shown to people keep what they are built from.
use ev_charger_management_pl.Prelude.{
  ◌≡◌, refl, arith, Bool-cases, inl, inr, ℕ, Option, none, some, Bool, true, false, ◌==◌,
  if◌then◌else◌, List,
}
use ev_charger_management_pl.Prelude.Int.{ℤ, pos}
use ev_charger_management_pl.Access.{Owned, Role}
use ev_charger_management_pl.Money.{finite, calculate_amount_paise}
use ev_charger_management_pl.Models.Charger.{ChargerType, ConnectorType}

-- `SESSION_STATUSES`
pub data SessionStatus : Type 0 where
  initiating active stopping completed failed : SessionStatus

-- `OPEN_SESSION_STATUSES.includes(status)`
abbrev pub is_open : SessionStatus → Bool
is_open initiating = true
is_open active = true
is_open stopping = true
is_open completed = false
is_open failed = false

abbrev pub is_initiating : SessionStatus → Bool
is_initiating initiating = true
is_initiating _ = false

abbrev pub is_charging : SessionStatus → Bool
is_charging active = true
is_charging _ = false

abbrev pub is_stopping : SessionStatus → Bool
is_stopping stopping = true
is_stopping _ = false

-- `SESSION_PAYMENT_STATUSES`
pub data SessionPaymentStatus : Type 0 where
  unpaid paid : SessionPaymentStatus

abbrev pub is_unpaid : SessionPaymentStatus → Bool
is_unpaid unpaid = true
is_unpaid paid = false

-- `STOP_REASONS`
pub data StopReason : Type 0 where
  remote local charger_disconnected start_timeout rejected hardware_fault : StopReason

-- A text that a person wrote, as its code points.
abbrev pub Text : Type 0
Text = List ℕ

-- What `failureReason` says, by the place that writes it.
pub data FailureReason : Type 0 where
  not_confirmed_in_time charger_rejected_start charger_did_not_respond : FailureReason
  cancelled_by_operator : Text → FailureReason
  cancelled_before_confirmation offline_at_stop : FailureReason
  connector_reported_fault : (connector_number : ℕ) → (error_code : Option ℕ) → FailureReason
  charger_reported_fault : (error_code : Option ℕ) → FailureReason
  stopped_sending_heartbeats backend_restarted : FailureReason
  disconnected : (close_code : ℕ) → FailureReason

pub record ChargingSession : Type 0 where
  pub user_id : ℕ
  pub vehicle_id : Option ℕ
  pub company_id : ℕ
  pub station_id : ℕ
  pub charger_id : ℕ
  pub connector_id : ℕ
  pub connector_number : ℕ
  pub charger_type : ChargerType
  pub connector_type : ConnectorType
  pub transaction_id : Option ℕ
  pub id_tag : ℕ
  pub status : SessionStatus
  pub requested_at : ℕ
  pub started_at : Option ℕ
  pub ended_at : Option ℕ
  pub start_meter_wh : Option ℤ
  pub last_meter_wh : Option ℤ
  pub end_meter_wh : Option ℤ
  pub energy_consumed_wh : ℕ
  pub stop_reason : Option StopReason
  pub failure_reason : Option FailureReason
  pub stopped_by_role : Option Role
  pub stop_note : Option Text
  pub applied_tariff_id : Option ℕ
  pub applied_price_per_kwh_paise : Option ℕ
  pub amount_paise : Option ℕ
  pub payment_status : SessionPaymentStatus

instance abbrev pub session_owned : Owned ChargingSession
session_owned = record { user_of = λ s. s.user_id; company_of = λ s. some s.company_id }

-- `if (this.amountPaise === 0) this.paymentStatus = 'paid'`
abbrev pub settle_if_free : ℕ → SessionPaymentStatus → SessionPaymentStatus
settle_if_free amount status = if amount == 0 then paid else status

-- The price of a terminal session that has a rate and no amount yet.
price : Option ℕ → Option ℕ → ChargingSession → ChargingSession
price (some _) _ s = s
price none none s = s
price none (some rate) s =
    let amount = calculate_amount_paise (finite (pos s.energy_consumed_wh)) (finite (pos rate)) in
    record s { amount_paise = some amount; payment_status = settle_if_free amount s.payment_status }

-- The `pre('save')` hook.
unfoldable pub compute_amount : ChargingSession → ChargingSession
unfolding price
compute_amount s =
    if is_open s.status then s else price s.amount_paise s.applied_price_per_kwh_paise s

-- What a session owes at its end: what it was billed already, or the price of its energy at its rate;
-- nothing is written down without a rate.
abbrev pub bill : (billed rate : Option ℕ) → (energy_wh : ℕ) → Option ℕ
bill (some amount) rate energy_wh = some amount
bill none none energy_wh = none
bill none (some rate) energy_wh =
    some (calculate_amount_paise (finite (pos energy_wh)) (finite (pos rate)))

-- A bill of nothing is paid as it is written.
abbrev pub paid_if_free :
    (billed rate : Option ℕ) → (energy_wh : ℕ) → SessionPaymentStatus → SessionPaymentStatus
paid_if_free none (some rate) energy_wh status =
    if calculate_amount_paise (finite (pos energy_wh)) (finite (pos rate)) == 0
    then paid
    else status
paid_if_free billed rate energy_wh status = status

price_bill :
    (a r : Option ℕ) (s : ChargingSession)
    → s.amount_paise ≡ a
    → price a r s ≡ record s {
      amount_paise = bill a r s.energy_consumed_wh;
      payment_status = paid_if_free a r s.energy_consumed_wh s.payment_status;
    }
unfolding price
price_bill (some amount) r s h = ground arith
price_bill none none s h = ground arith
price_bill none (some rate) s h = refl

-- The hook writes the bill of a session that has ended, and nothing else.
pub compute_amount_bill :
    (s : ChargingSession)
    → is_open s.status ≡ false
    → compute_amount s ≡ record s {
      amount_paise = bill s.amount_paise s.applied_price_per_kwh_paise s.energy_consumed_wh;
      payment_status =
          paid_if_free s.amount_paise s.applied_price_per_kwh_paise s.energy_consumed_wh
            s.payment_status;
    }
unfolding compute_amount
compute_amount_bill s ended =
    rw (ended, compute_amount) (price_bill s.amount_paise s.applied_price_per_kwh_paise s refl)

price_same :
    (a r : Option ℕ) (s : ChargingSession)
    → ((price a r s).status ≡ s.status)
      × ((price a r s).connector_id ≡ s.connector_id)
      × ((price a r s).user_id ≡ s.user_id)
unfolding price
price_same (some _) _ s = (refl, refl, refl)
price_same none none s = (refl, refl, refl)
price_same none (some rate) s = (refl, refl, refl)

-- Pricing writes the amount and the payment status alone.
pub compute_amount_same :
    (s : ChargingSession)
    → ((compute_amount s).status ≡ s.status)
      × ((compute_amount s).connector_id ≡ s.connector_id)
      × ((compute_amount s).user_id ≡ s.user_id)
unfolding compute_amount
compute_amount_same s = elim (Bool-cases (is_open s.status)) [
  | inl opened ↦ rw (opened, compute_amount) (refl, refl, refl)
  | inr ended ↦
      rw (ended, compute_amount) (price_same s.amount_paise s.applied_price_per_kwh_paise s)
]

pub record MeterReading : Type 0 where
  pub session_id : ℕ
  pub meter_timestamp : ℕ
  pub energy_wh : ℕ
  pub power_kw : Option ℤ
  pub soc_percent : Option ℤ
