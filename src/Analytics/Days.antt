-- ===== src/Analytics/Days.antt =====
-- The loop over the days of a window ends, with every day once (backend/src/utils/dateRange.ts).
use ev_charger_management_pl.Prelude.{
  ℕ, zero, suc, ◌+◌, ◌-◌, ◌*◌, ◌≤◌, ◌<◌, ◌≡◌, refl, Option, some, leb, get_or, List, [], ◌∷◌, arith,
  true, false,
}
use ev_charger_management_pl.Analytics.Range.{
  ms_per_day, default_range_days, DateRange, start_of_utc_day, end_of_utc_day, to_utc_date_key,
  resolve_range, each_day_from, each_utc_day, days_in_range,
}

-- The `count` days from a day on.
unfoldable pub consecutive : (day count : ℕ) → List ℕ
consecutive day zero = []
consecutive day (suc count) = day ∷ consecutive (day + 1) count

key_of_midnight : (day : ℕ) → to_utc_date_key (start_of_utc_day day) ≡ day
key_of_midnight day = omega arith

key_of_end : (day : ℕ) → to_utc_date_key (end_of_utc_day day) ≡ day
key_of_end day = omega arith

-- From a midnight on, the loop goes once for each day that is left and then stops.
each_day_from_lem :
    (count fuel day last : ℕ)
    → count < fuel
    → day + count ≡ last + 1
    → each_day_from fuel (start_of_utc_day day) (end_of_utc_day last) ≡ some (consecutive day count)
unfolding each_day_from consecutive
each_day_from_lem count zero day last h e = absurd (omega arith)
each_day_from_lem zero (suc fuel) day last h e =
    let past : leb (start_of_utc_day day) (end_of_utc_day last) ≡ false = ground arith in
    rw past refl
each_day_from_lem (suc count) (suc fuel) day last h e =
    let within : leb (start_of_utc_day day) (end_of_utc_day last) ≡ true = ground arith in
    let next : start_of_utc_day day + ms_per_day ≡ start_of_utc_day (day + 1) = omega arith in
    let rest = each_day_from_lem count fuel (day + 1) last (omega arith) (omega arith) in
    rw (within, next, rest, key_of_midnight day) refl

days_in_range_lem :
    (a b : ℕ)
    → a ≤ b
    → days_in_range (record { from = start_of_utc_day a; to = end_of_utc_day b }) ≡ b - a + 1
unfolding days_in_range
days_in_range_lem a b h = omega arith

days_of_window :
    (a b fuel : ℕ)
    → a ≤ b
    → let r : DateRange = record { from = start_of_utc_day a; to = end_of_utc_day b } in
      days_in_range r < fuel
      → (each_utc_day fuel r ≡ some (consecutive a (days_in_range r)))
        × (a + days_in_range r ≡ b + 1)
unfolding each_utc_day
days_of_window a b fuel h enough =
    let r : DateRange = record { from = start_of_utc_day a; to = end_of_utc_day b } in
    let count = days_in_range_lem a b h in
    (
      rw (key_of_midnight a)
          (each_day_from_lem (days_in_range r) fuel a b enough (omega (arith, count))),
      omega (arith, count),
    )

-- Where the window that a request means does not end before it starts, the loop over its days is over
-- after as many rounds as the window counts days, and one test: it gives every day from the first to the
-- last, in order and once.
pub window_days :
    (now fuel : ℕ) (from to : Option ℕ)
    → let r = resolve_range now from to in
      r.from ≤ r.to
      → days_in_range r < fuel
      → (each_utc_day fuel r ≡ some (consecutive (to_utc_date_key r.from) (days_in_range r)))
        × (to_utc_date_key r.from + days_in_range r ≡ to_utc_date_key r.to + 1)
unfolding resolve_range
window_days now fuel from to ordered enough =
    let b = get_or to (to_utc_date_key now) in
    let first =
      get_or from (to_utc_date_key (start_of_utc_day b - (default_range_days - 1) * ms_per_day)) in
    rw (key_of_midnight first, key_of_end b)
      (days_of_window first b fuel (omega (arith, ordered)) enough)
