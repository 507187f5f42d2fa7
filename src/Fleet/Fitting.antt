-- ===== src/Fleet/Fitting.antt =====
-- The plugs that fit their chargers, and the writes that keep them so
-- (backend/src/services/charger.service.ts, backend/src/services/connector.service.ts).
use ev_charger_management_pl.Prelude.{
  ℕ, ◌≡◌, subst, none, some, Bool, true, false, not, ◌&&◌, ◌==◌, ==_iff, Bool-cases, Option-cases,
  inl, inr, arith,
}
use ev_charger_management_pl.Prelude.Result.{ok}
use ev_charger_management_pl.Prelude.Table.{
  Table, find_by_id, find_by_id-save, find_by_id-create, save, create,
}
use ev_charger_management_pl.Access.{AuthUser}
use ev_charger_management_pl.Models.Charger.{Charger, Connector}
use ev_charger_management_pl.Store.{Store}
use ev_charger_management_pl.Fleet.Chargers.{
  charger_owned, is_ac, is_dc_only, plug_fits, charger_in_scope,
}

-- The charger that a plug names is stored, and the plug fits it.
abbrev pub fitted : Table Charger → Connector → Bool
fitted chargers c = elim (find_by_id c.charger_id chargers) [
  | none ↦ false
  | some charger ↦ plug_fits charger.charger_type c.connector_type
]

pub record IsFitted (db : Store) : Type 0 where
  pub fits :
      (k : ℕ) (c : Connector) → find_by_id k db.connectors ≡ some c → fitted db.chargers c ≡ true

pub charger_found :
    (actor : AuthUser) (k : ℕ) (t : Table Charger) (x : Charger)
    → charger_in_scope actor k t ≡ ok x
    → find_by_id k t ≡ some x
unfolding charger_in_scope
charger_found actor k t x h = ground arith

-- A new or rewritten plug that fits.
pub put_connector-IsFitted :
    (k : ℕ) (c : Connector) (db : Store)
    → fitted db.chargers c ≡ true
    → IsFitted db
    → IsFitted (record db { connectors = save k c db.connectors })
put_connector-IsFitted k c db fine h = record {
  fits = λ j x at. elim (Bool-cases (k == j)) [
    | inl same ↦
        let is_it : c ≡ x = ground (arith, find_by_id-save j k c db.connectors) in
        subst (λ y. fitted db.chargers y ≡ true) is_it fine
    | inr differs ↦ h.fits j x (ground (arith, find_by_id-save j k c db.connectors))
  ];
}

pub add_connector-IsFitted :
    (k : ℕ) (c : Connector) (db : Store)
    → fitted db.chargers c ≡ true
    → IsFitted db
    → IsFitted (record db { connectors = create k c db.connectors })
add_connector-IsFitted k c db fine h = record {
  fits = λ j x at. elim (Option-cases (find_by_id j db.connectors)) [
    | inl new ↦
        let is_it : c ≡ x = ground (arith, new, find_by_id-create j k c db.connectors) in
        subst (λ y. fitted db.chargers y ≡ true) is_it fine
    | inr (y, old) ↦ h.fits j x (ground (arith, old, find_by_id-create j k c db.connectors))
  ];
}

-- A new charger has no plugs yet; a rewritten one that keeps fitting its plugs.
pub add_charger-IsFitted :
    (k : ℕ) (x : Charger) (db : Store)
    → find_by_id k db.chargers ≡ none
    → IsFitted db
    → IsFitted (record db { chargers = create k x db.chargers })
add_charger-IsFitted k x db fresh h = record {
  fits = λ j c at. ground (
    arith,
    h.fits j c at,
    find_by_id-create c.charger_id k x db.chargers,
    fresh,
    ==_iff k c.charger_id,
  );
}

pub put_charger-IsFitted :
    (k : ℕ) (old new : Charger) (db : Store)
    → find_by_id k db.chargers ≡ some old
    → ((j : ℕ) (c : Connector)
        → find_by_id j db.connectors ≡ some c
        → (c.charger_id == k
            && is_dc_only c.connector_type
            && is_ac new.charger_type
            && not (is_ac old.charger_type))
          ≡ false)
    → IsFitted db
    → IsFitted (record db { chargers = save k new db.chargers })
put_charger-IsFitted k old new db stored allowed h = record {
  fits = λ j c at. ground (
    arith,
    h.fits j c at,
    allowed j c at,
    stored,
    find_by_id-save c.charger_id k new db.chargers,
    ==_iff k c.charger_id,
    ==_iff c.charger_id k,
  );
}
