-- ===== src/Session/Startable.antt =====
-- When a connector can be started: `assessStartability` of
-- backend/src/services/chargingSession.service.ts against the list of what must hold.
use ev_charger_management_pl.Prelude.{◌≡◌, ◌⊎◌, ◌↔◌, none, true, Bool, arith}
use ev_charger_management_pl.Models.Charger.{ChargerStatus, HardwareStatus, ConnectorStatus}
use ev_charger_management_pl.Session.Starting.{assess_startability}

-- The states of a plug that nobody holds.
abbrev pub Free : ConnectorStatus → Type 0
Free c =
    (c ≡ ConnectorStatus.available)
    ⊎ (c ≡ ConnectorStatus.preparing)
    ⊎ (c ≡ ConnectorStatus.finishing)

-- A connector can be started exactly when nobody has taken its charger out of use, the charger is
-- online and reports itself operative, and the plug is available, preparing or finishing.
pub assess_startability_iff :
    (c : ConnectorStatus) (s : ChargerStatus) (is_online : Bool) (h : HardwareStatus)
    → (assess_startability c s is_online h ≡ none) ↔ (
        (s ≡ ChargerStatus.available)
        × (is_online ≡ true)
        × (h ≡ HardwareStatus.operative)
        × Free c)
unfolding assess_startability
assess_startability_iff c s is_online h = (λ e. ground arith, λ e. ground arith)
