-- ===== src/Models/Charger.antt =====
-- Chargers, connectors, vehicles and tariffs, as far as the session and gateway code reads and
-- writes them: backend/src/models/{charger,connector,vehicle,tariff}.model.ts and the types of
-- backend/src/constants/charger.ts and backend/src/constants/connector.ts. Names, addresses and
-- other display fields are left out; an OCPP identity and an error code are numbers, since the
-- code only compares and copies them.
use ev_charger_management_pl.Prelude.{ℕ, Option, Bool, true, false}

-- `CHARGER_TYPES`
pub data ChargerType : Type 0 where
  ac dc : ChargerType

-- `CONNECTOR_TYPES`
pub data ConnectorType : Type 0 where
  ccs2 chademo type2 gbt : ConnectorType

abbrev pub same_plug : ConnectorType → ConnectorType → Bool
same_plug ccs2 ccs2 = true
same_plug chademo chademo = true
same_plug type2 type2 = true
same_plug gbt gbt = true
same_plug _ _ = false

-- `CHARGER_STATUSES`, what a person decided about the machine
pub data ChargerStatus : Type 0 where
  available unavailable faulted maintenance : ChargerStatus

-- `CHARGER_HARDWARE_STATUSES`, what the machine says of itself
pub data HardwareStatus : Type 0 where
  operative faulted unavailable : HardwareStatus

-- `CONNECTOR_STATUSES`
pub data ConnectorStatus : Type 0 where
  available occupied faulted unavailable preparing charging finishing : ConnectorStatus

pub record Charger : Type 0 where
  pub station_id : ℕ
  pub company_id : ℕ
  pub created_by : ℕ
  pub charger_code : ℕ
  pub ocpp_id : ℕ
  pub power_kw : ℕ
  pub charger_type : ChargerType
  pub status : ChargerStatus
  pub is_online : Bool
  pub last_heartbeat_at : Option ℕ
  pub hardware_status : HardwareStatus
  pub fault_code : Option ℕ
  pub fault_reported_at : Option ℕ

pub record Connector : Type 0 where
  pub charger_id : ℕ
  pub connector_number : ℕ
  pub connector_type : ConnectorType
  pub status : ConnectorStatus
  pub error_code : Option ℕ

pub record Vehicle : Type 0 where
  pub user_id : ℕ
  pub connector_type : ConnectorType

pub record Tariff : Type 0 where
  pub company_id : ℕ
  pub created_by : ℕ
  pub price_per_kwh_paise : ℕ
  pub is_active : Bool
