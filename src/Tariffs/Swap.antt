-- ===== src/Tariffs/Swap.antt =====
-- What a change of a tariff's status does to the active tariffs (`setTariffStatus` of
-- backend/src/services/tariff.service.ts).
use ev_charger_management_pl.Prelude.{
  ℕ, ◌-◌, ◌≡◌, refl, some, true, false, ◌==◌, ==_iff, if◌then◌else◌, Bool-cases, Option-cases, inl,
  inr, arith,
}
use ev_charger_management_pl.Prelude.Result.{is_ok, Result-cases}
use ev_charger_management_pl.Prelude.Table.{
  Table, IsTable, find_by_id, find_by_id-save, find_one, find_one_sound, save, save-IsTable,
  any_other,
}
use ev_charger_management_pl.Prelude.Counting.{
  count_documents-save, count_documents-find_one, count_documents-two,
}
use ev_charger_management_pl.Access.{AuthUser}
use ev_charger_management_pl.Models.Charger.{Tariff}
use ev_charger_management_pl.Tariffs.Service.{
  tariff_owned, TariffStatus, active, inactive, has_status, with_status, active_of, tariff_in_scope,
  release_active, deactivate, activate, put_status, set_tariff_status,
}
use ev_charger_management_pl.Tariffs.Active.{
  active_tariffs, IsPriced, KeepsPrices, same-KeepsPrices, tariff_in_scope_found,
}

-- What the first half of a swap does: it takes the active tariff of the company away, if there is one.
release-rows :
    (company_id : ℕ) (t : Table Tariff) → IsTable t → IsTable (release_active company_id t)
unfolding release_active
release-rows company_id t h = elim (Option-cases (find_one (active_of company_id) t)) [
  | inl nobody ↦ rw (nobody, release_active) h
  | inr ((j, incumbent), found) ↦ rw (found, release_active) (save-IsTable j _ t h)
]

release-count :
    (company_id c : ℕ) (t : Table Tariff)
    → IsTable t
    → active_tariffs c (release_active company_id t)
      ≡ (if c == company_id then active_tariffs c t - 1 else active_tariffs c t)
unfolding release_active
release-count company_id c t h = elim (Option-cases (find_one (active_of company_id) t)) [
  | inl nobody ↦
      rw (nobody, release_active)
        (ground
          (arith, count_documents-find_one (active_of company_id) t nobody, ==_iff c company_id))
  | inr ((j, incumbent), found) ↦
      let (stored, fits) = find_one_sound (active_of company_id) t j incumbent h found in
      rw (found, release_active)
        (ground (
          arith,
          fits,
          ==_iff c company_id,
          ==_iff incumbent.company_id c,
          ==_iff incumbent.company_id company_id,
          count_documents-save (active_of c) j (with_status inactive incumbent) incumbent t stored,
        ))
]

-- A tariff that is not active is not the one that is taken away.
release-idle :
    (company_id k : ℕ) (x : Tariff) (t : Table Tariff)
    → IsTable t
    → find_by_id k t ≡ some x
    → x.is_active ≡ false
    → find_by_id k (release_active company_id t) ≡ some x
unfolding release_active
release-idle company_id k x t h found idle =
    elim (Option-cases (find_one (active_of company_id) t)) [
      | inl nobody ↦ rw (nobody, release_active) found
      | inr ((j, incumbent), first) ↦
          let (stored, fits) = find_one_sound (active_of company_id) t j incumbent h first in
          rw (first, release_active)
            (ground (
              arith,
              stored,
              fits,
              found,
              idle,
              ==_iff j k,
              find_by_id-save k j (with_status inactive incumbent) t,
            ))
    ]

activate-KeepsPrices :
    (k : ℕ) (x : Tariff) (t : Table Tariff)
    → find_by_id k t ≡ some x
    → x.is_active ≡ false
    → IsPriced t
    → KeepsPrices t (activate k x t).1
unfolding activate
activate-KeepsPrices k x t found idle h =
    let released = release_active x.company_id t in
    elim (Bool-cases (any_other k (active_of x.company_id) released)) [
      | inl taken ↦ rw (taken, activate) (same-KeepsPrices t h)
      | inr free ↦
          let new : (c : ℕ)
              → active_tariffs c (save k (with_status active x) released)
                ≡ (if c == x.company_id then 1 else active_tariffs c t) =
            λ c. ground (
              arith,
              idle,
              h.single c,
              release-count x.company_id c t h.rows,
              ==_iff c x.company_id,
              ==_iff x.company_id c,
              count_documents-save (active_of c) k (with_status active x) x released
                  (release-idle x.company_id k x t h.rows found idle),
            ) in
          rw (free, activate)
            (record {
              priced = record {
                rows =
                    save-IsTable k (with_status active x) released
                      (release-rows x.company_id t h.rows);
                single = λ c. ground (arith, new c, h.single c);
              };
              kept = λ c. ground (arith, new c, h.single c);
            })
    ]

-- Where no company has two active tariffs, the only one is never taken away.
deactivate-refused :
    (k : ℕ) (x : Tariff) (t : Table Tariff)
    → find_by_id k t ≡ some x
    → x.is_active ≡ true
    → IsPriced t
    → (is_ok (deactivate k x t).0 ≡ false) × ((deactivate k x t).1 ≡ t)
unfolding deactivate
deactivate-refused k x t found live h = elim (Bool-cases (any_other k (active_of x.company_id) t)) [
  | inl other ↦
      let two =
        count_documents-two (active_of x.company_id) k x t found
          (ground (arith, live, ==_iff x.company_id x.company_id)) other in
      absurd (omega (arith, two, h.single x.company_id))
  | inr alone ↦ rw (alone, deactivate) (refl, refl)
]

put-KeepsPrices :
    (k : ℕ) (status : TariffStatus) (x : Tariff) (t : Table Tariff)
    → find_by_id k t ≡ some x
    → has_status status x ≡ false
    → IsPriced t
    → KeepsPrices t (put_status k status x t).1
put-KeepsPrices k active x t found differs h = activate-KeepsPrices k x t found differs h
put-KeepsPrices k inactive x t found differs h =
    rw (deactivate-refused k x t found (ground (arith, differs)) h).1 (same-KeepsPrices t h)

pub set-KeepsPrices :
    (actor : AuthUser) (k : ℕ) (status : TariffStatus) (t : Table Tariff)
    → IsPriced t
    → KeepsPrices t (set_tariff_status actor k status t).1
unfolding set_tariff_status
set-KeepsPrices actor k status t h = elim (Result-cases (tariff_in_scope actor k t)) [
  | inl (e, out) ↦ rw (out, set_tariff_status) (same-KeepsPrices t h)
  | inr (x, within) ↦ elim (Bool-cases (has_status status x)) [
    | inl already ↦ rw (within, already, set_tariff_status) (same-KeepsPrices t h)
    | inr differs ↦
        rw (within, differs, set_tariff_status)
          (put-KeepsPrices k status x t (tariff_in_scope_found actor k t x within) differs h)
  ]
]

-- Where no company has two active tariffs, a request to deactivate one that is active fails, whoever
-- makes it, and writes nothing.
pub deactivation_refused :
    (actor : AuthUser) (k : ℕ) (x : Tariff) (t : Table Tariff)
    → IsPriced t
    → find_by_id k t ≡ some x
    → x.is_active ≡ true
    → (is_ok (set_tariff_status actor k inactive t).0 ≡ false)
      × ((set_tariff_status actor k inactive t).1 ≡ t)
unfolding set_tariff_status deactivate
deactivation_refused actor k x t h found live = elim (Result-cases (tariff_in_scope actor k t)) [
  | inl (e, out) ↦ rw (out, set_tariff_status) (refl, refl)
  | inr (y, within) ↦
      let same : y ≡ x = cc (tariff_in_scope_found actor k t y within, found) in
      rw (within, same, live, set_tariff_status) (deactivate-refused k x t found live h)
]
