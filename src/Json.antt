-- ===== src/Json.antt =====
-- The values of encoding/json that the program looks into: json.RawMessage and float64.
use walletops.Prelude.{
  ℕ, ◌==◌, String, Bool, true, ◌&&◌, Option, none, some, leb, str_eq, if◌then◌else◌,
}

-- A finite float64: its sign and its other 63 bits read as a number, which orders the magnitudes.
-- A JSON number is never infinite and never a NaN.
pub data Float64 : Type 0 where
  plus minus : ℕ → Float64

unfoldable pub le_float : Float64 → Float64 → Bool
le_float (plus a) (plus b) = leb a b
le_float (plus a) (minus b) = a == 0 && b == 0
le_float (minus a) (plus b) = true
le_float (minus a) (minus b) = leb b a

abbrev pub zero_float : Float64
zero_float = plus 0

-- `number none` is a literal that no float64 holds, which decoding refuses.
mutual
  pub data Json : Type 0 where
    null : Json
    bool : Bool → Json
    number : Option Float64 → Json
    string : String → Json
    array : Items → Json
    object : Fields → Json

  pub data Items : Type 0 where
    nil : Items
    cons : Json → Items → Items

  pub data Fields : Type 0 where
    end : Fields
    field : String → Json → Fields → Fields

-- json.RawMessage: `none` is the slice of length 0.
abbrev pub RawMessage : Type 0
RawMessage = Option Json

-- `obj[key]` after decoding into a map: the last of equal keys is kept.
unfoldable pub lookup : String → Fields → Option Json
lookup key end = none
lookup key (field k v rest) = elim (lookup key rest) [
  | some w ↦ some w
  | none ↦ if str_eq k key then some v else none
]

-- json.Unmarshal into a float64 that starts at 0: `null` is accepted and leaves it.
unfoldable pub unmarshal_float : Json → Option Float64
unmarshal_float null = some zero_float
unmarshal_float (number n) = n
unmarshal_float _ = none

-- json.Unmarshal into a map: `null` is accepted and leaves the map nil.
unfoldable pub unmarshal_map : Json → Option Fields
unmarshal_map null = some end
unmarshal_map (object fields) = some fields
unmarshal_map _ = none
