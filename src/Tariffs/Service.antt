-- ===== src/Tariffs/Service.antt =====
-- `resolveTargetCompany`, `createTariff`, `updateTariff` and `setTariffStatus` of
-- backend/src/services/tariff.service.ts, on the tariffs alone. Whether a company exists is the
-- database's answer. The name of a tariff is left out.
use ev_charger_management_pl.Prelude.{
  ℕ, Option, none, some, Bool, true, false, not, ◌&&◌, ◌==◌, is_some, get_or, if◌then◌else◌,
}
use ev_charger_management_pl.Prelude.Result.{Result, ok, err, Action}
use ev_charger_management_pl.Prelude.Table.{
  Table, ObjectIds, find_by_id, find_one, save, create, any_other,
}
use ev_charger_management_pl.Access.{
  AuthUser, is_super_admin, Owned, plain, satisfies, resolve_company_scope, apply_company_scope,
}
use ev_charger_management_pl.Models.Charger.{Tariff}

pub data TariffError : Type 0 where
  company_id_required company_not_found company_id_not_yours no_company tariff_not_found :
      TariffError
  other_company only_active_tariff activated_at_once : TariffError

instance abbrev pub tariff_owned : Owned Tariff
tariff_owned = record { user_of = λ t. t.created_by; company_of = λ t. some t.company_id }

-- `TARIFF_STATUSES`
pub data TariffStatus : Type 0 where
  active inactive : TariffStatus

abbrev pub is_active_status : TariffStatus → Bool
is_active_status active = true
is_active_status inactive = false

-- `tariff.status === status`
abbrev pub has_status : TariffStatus → Tariff → Bool
has_status active t = t.is_active
has_status inactive t = not t.is_active

abbrev pub with_status : TariffStatus → Tariff → Tariff
with_status status t = record t { is_active = is_active_status status }

abbrev pub active_of : (company_id : ℕ) → Tariff → Bool
active_of company_id t = t.company_id == company_id && t.is_active

unfoldable pub resolve_target_company :
    (company_exists : ℕ → Bool) → AuthUser → Option ℕ → Result TariffError ℕ
resolve_target_company company_exists actor requested =
    if is_super_admin actor.role
    then elim requested [
      | none ↦ err company_id_required
      | some c ↦ if company_exists c then ok c else err company_not_found
    ]
    else if is_some requested
    then err company_id_not_yours
    else elim (resolve_company_scope actor) [
      | err e ↦ err no_company
      | ok scope ↦ elim scope.company_id [ none ↦ err no_company | some c ↦ ok c ]
    ]

pub record CreateTariffInput : Type 0 where
  pub company_id : Option ℕ
  pub price_per_kwh_paise : ℕ

unfoldable pub create_tariff :
    ObjectIds
    → (company_exists : ℕ → Bool) → AuthUser
    → CreateTariffInput
    → Action (Table Tariff) TariffError Tariff
create_tariff ids company_exists actor input t =
    elim (resolve_target_company company_exists actor input.company_id) [
      | err e ↦ (err e, t)
      | ok company_id ↦
          let tariff : Tariff = record {
            company_id = company_id;
            created_by = actor.id;
            price_per_kwh_paise = input.price_per_kwh_paise;
            is_active = false;
          } in
          (ok tariff, create (ids.fresh _ t) tariff t)
    ]

abbrev not_found_or_forbidden : AuthUser → TariffError
not_found_or_forbidden actor = if is_super_admin actor.role then tariff_not_found else other_company

unfoldable pub tariff_in_scope : AuthUser → ℕ → Table Tariff → Result TariffError Tariff
tariff_in_scope actor k t = elim (apply_company_scope actor (plain (λ (x : Tariff). true))) [
  | err e ↦ err no_company
  | ok scope ↦ elim (find_by_id k t) [
    | none ↦ err (not_found_or_forbidden actor)
    | some x ↦ if satisfies scope x then ok x else err (not_found_or_forbidden actor)
  ]
]

unfoldable pub update_tariff :
    AuthUser → ℕ → (price_per_kwh_paise : Option ℕ) → Action (Table Tariff) TariffError Tariff
update_tariff actor k price t = elim (tariff_in_scope actor k t) [
  | err e ↦ (err e, t)
  | ok tariff ↦
      let changed = record tariff {
        price_per_kwh_paise = get_or price tariff.price_per_kwh_paise;
      } in
      (ok changed, save k changed t)
]

-- `updateOne({ companyId, status: 'active' }, { $set: { status: 'inactive' } })`
unfoldable pub release_active : (company_id : ℕ) → Table Tariff → Table Tariff
release_active company_id t = elim (find_one (active_of company_id) t) [
  | none ↦ t
  | some (k, incumbent) ↦ save k (with_status inactive incumbent) t
]

-- A bare deactivation needs another active tariff.
unfoldable pub deactivate : ℕ → Tariff → Action (Table Tariff) TariffError Tariff
deactivate k tariff t =
    if any_other k (active_of tariff.company_id) t
    then (ok (with_status inactive tariff), save k (with_status inactive tariff) t)
    else (err only_active_tariff, t)

-- The swap is a transaction, which the unique index on the active tariff of a company may refuse.
unfoldable pub activate : ℕ → Tariff → Action (Table Tariff) TariffError Tariff
activate k tariff t =
    let released = release_active tariff.company_id t in
    if any_other k (active_of tariff.company_id) released
    then (err activated_at_once, t)
    else (ok (with_status active tariff), save k (with_status active tariff) released)

abbrev pub put_status : ℕ → TariffStatus → Tariff → Action (Table Tariff) TariffError Tariff
put_status k active tariff t = activate k tariff t
put_status k inactive tariff t = deactivate k tariff t

unfoldable pub set_tariff_status :
    AuthUser → ℕ → TariffStatus → Action (Table Tariff) TariffError Tariff
set_tariff_status actor k status t = elim (tariff_in_scope actor k t) [
  | err e ↦ (err e, t)
  | ok tariff ↦ if has_status status tariff then (ok tariff, t) else put_status k status tariff t
]
