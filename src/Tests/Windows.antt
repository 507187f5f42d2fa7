-- ===== src/Tests/Windows.antt =====
-- A window of three days.
use ev_charger_management_pl.Prelude.{◌+◌, ◌≤◌, ◌<◌, ◌≡◌, some, arith}
use ev_charger_management_pl.Analytics.Range.{
  DateRange, to_utc_date_key, resolve_range, each_utc_day, days_in_range,
}
use ev_charger_management_pl.Analytics.Days.{consecutive, window_days}

abbrev three_days : DateRange
three_days = resolve_range 5 (some 20_000) (some 20_002)

three_days_ordered : three_days.from ≤ three_days.to
unfolding resolve_range
three_days_ordered = omega arith

three_days_short : days_in_range three_days < 4
unfolding resolve_range days_in_range
three_days_short = omega arith

window_days_example :
    (each_utc_day 4 three_days
      ≡ some (consecutive (to_utc_date_key three_days.from) (days_in_range three_days)))
    × (to_utc_date_key three_days.from + days_in_range three_days
        ≡ to_utc_date_key three_days.to + 1)
window_days_example =
    window_days 5 4 (some 20_000) (some 20_002) three_days_ordered three_days_short
