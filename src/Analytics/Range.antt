-- ===== src/Analytics/Range.antt =====
-- Windows of days in UTC: backend/src/utils/dateRange.ts. A day is its number since 1 January 1970,
-- which stands for the text YYYY-MM-DD that the JavaScript library writes for it; a moment is in
-- milliseconds since then.
use ev_charger_management_pl.Prelude.{
  ℕ, zero, suc, ◌+◌, ◌-◌, ◌*◌, ◌/◌, Option, none, some, leb, get_or, if◌then◌else◌, List, [], ◌∷◌,
}

abbrev pub ms_per_day : ℕ
ms_per_day = 86_400_000

-- `DEFAULT_RANGE_DAYS`
abbrev pub default_range_days : ℕ
default_range_days = 30

pub record DateRange : Type 0 where
  pub from : ℕ
  pub to : ℕ

abbrev pub start_of_utc_day : ℕ → ℕ
start_of_utc_day day = day * ms_per_day

abbrev pub end_of_utc_day : ℕ → ℕ
end_of_utc_day day = day * ms_per_day + (ms_per_day - 1)

abbrev pub to_utc_date_key : ℕ → ℕ
to_utc_date_key moment = moment / ms_per_day

-- A day before 1970 is taken to be the first one of 1970.
unfoldable pub resolve_range : (now : ℕ) → (from to : Option ℕ) → DateRange
resolve_range now from to =
    let to_key = get_or to (to_utc_date_key now) in
    let from_key =
      get_or from
        (to_utc_date_key (start_of_utc_day to_key - (default_range_days - 1) * ms_per_day)) in
    record { from = start_of_utc_day from_key; to = end_of_utc_day to_key }

-- The loop from midnight to midnight; none stands for a loop that is not over when the fuel is.
unfoldable pub each_day_from : (fuel cursor to : ℕ) → Option (List ℕ)
each_day_from zero cursor to = none
each_day_from (suc fuel) cursor to =
    let rest = each_day_from fuel (cursor + ms_per_day) to in
    if leb cursor to
    then elim rest [ none ↦ none | some keys ↦ some (to_utc_date_key cursor ∷ keys) ]
    else some []

unfoldable pub each_utc_day : (fuel : ℕ) → DateRange → Option (List ℕ)
each_utc_day fuel range =
    each_day_from fuel (start_of_utc_day (to_utc_date_key range.from)) range.to

-- `Math.round`, of a quotient that is not negative
unfoldable pub days_in_range : DateRange → ℕ
days_in_range range = (2 * (range.to - range.from) + ms_per_day) / (2 * ms_per_day)
