-- ===== src/Ocpp/Json.antt =====
-- Values of JSON, as the gateway reads and writes them, and the parser and the printer of the
-- JavaScript library as an interface. A number that is a natural number is kept as one; any other is in
-- hundredths, to which the source rounds its energies.
use Prim.Native.String.{String}
use text.Mathlib.Text.{◌==◌ as str_eq}
use ev_charger_management_pl.Prelude.{
  ℕ, ◌*◌, zero, suc, ◌≡◌, Option, none, some, Bool, if◌then◌else◌,
}
use ev_charger_management_pl.Prelude.Int.{ℤ, pos}

pub data Number : Type 0 where
  natural : ℕ → Number
  decimal : ℤ → Number

-- In hundredths.
abbrev pub hundredths : Number → ℤ
hundredths (natural n) = pos (100 * n)
hundredths (decimal z) = z

abbrev pub whole : Number → Option ℕ
whole (natural n) = some n
whole (decimal z) = none

mutual
  pub data Json : Type 0 where
    null : Json
    boolean : Bool → Json
    number : Number → Json
    string : String → Json
    array : Items → Json
    object : Fields → Json

  pub data Items : Type 0 where
    no_items : Items
    item : Json → Items → Items

  pub data Fields : Type 0 where
    no_fields : Fields
    field : String → Json → Fields → Fields

infixr 20 ◌⊳◌
abbrev pub ◌⊳◌ : Json → Items → Items
v ⊳ rest = item v rest

-- `frame[i]`; what is past the end is `undefined`.
abbrev pub item_at : ℕ → Items → Option Json
item_at i no_items = none
item_at zero (item v rest) = some v
item_at (suc i) (item v rest) = item_at i rest

-- `payload[field]`, where no name stands twice.
unfoldable pub property_of : String → Fields → Option Json
property_of name no_fields = none
property_of name (field other v rest) = if str_eq other name then some v else property_of name rest

-- `JSON.parse`, with none for a throw, and `JSON.stringify`.
pub record JsonLibrary : Type 1 where
  pub Raw : Type 0
  pub parse : Raw → Option Json
  pub stringify : Json → Raw
  pub parse-stringify : (v : Json) → parse (stringify v) ≡ some v
