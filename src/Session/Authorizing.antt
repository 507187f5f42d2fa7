-- ===== src/Session/Authorizing.antt =====
-- When a driver's tag is refused for what the driver owes (`authorizeIdTag` of
-- backend/src/services/sessionEvents.service.ts).
use ev_charger_management_pl.Prelude.{ℕ, ◌<◌, ◌≡◌, ◌↔◌, ◌⊎◌, some, ◌==◌, ◌&&◌, arith}
use ev_charger_management_pl.Prelude.Table.{find_one}
use ev_charger_management_pl.Models.Session.{ChargingSession, is_open}
use ev_charger_management_pl.Store.{Store}
use ev_charger_management_pl.Payment.Arrears.{
  arrears_max_outstanding_paise, arrears_max_unpaid_sessions,
}
use ev_charger_management_pl.Payment.Arrears.Laws.{aged_debt, aged_count, blocked_lem}
use ev_charger_management_pl.Session.Events.{accepted, blocked, authorize_id_tag}

-- A tag of an open session is blocked exactly when its driver's aged debt, for the sessions that ended
-- longer ago than the grace and are billed and not paid, is over the limit of amount, or the number of
-- those sessions is over theirs; it is accepted otherwise.
pub blocked_iff :
    (now id_tag k : ℕ) (s : ChargingSession) (db : Store)
    → find_one (λ (s : ChargingSession). s.id_tag == id_tag && is_open s.status) db.sessions
      ≡ some (k, s)
    → let Owing =
        (arrears_max_outstanding_paise < aged_debt now s.user_id db.sessions)
        ⊎ (arrears_max_unpaid_sessions < aged_count now s.user_id db.sessions) in
      ((authorize_id_tag now id_tag db ≡ blocked) ↔ Owing)
      × ((authorize_id_tag now id_tag db ≡ accepted) ↔ (¬ Owing))
unfolding authorize_id_tag
blocked_iff now id_tag k s db found =
    let lim = blocked_lem now s.user_id db in
    (
      (λ h. ground (arith, lim, found), λ h. ground (arith, lim, found)),
      (λ h o. ground (arith, lim, found), λ h. ground (arith, lim, found)),
    )
