-- ===== src/Diff/Tree.antt =====
-- What the diff engine sees of a YAML value (`serde_yaml_ng::Value`), beyond the accessors of Manifest:
-- the kinds of value, and a mapping as the list of its entries in the order of iteration. It is the
-- interface `Tree` to the library, with the documented laws of its equality in `IsTree`.
use synchrotron.Base.{
  ℕ, ◌≡◌, ◌↔◌, ◌<◌, Bool, true, Option, none, some, List, [], ◌∷◌, String, if◌then◌else◌, All, map,
}
use synchrotron.Base.Map.{is_some}
use synchrotron.Manifest.{Yaml}

pub data Shape (V : Type 0) : Type 0 where
  null : Shape V
  boolean : Bool → Shape V
  -- with the text that `to_string` makes of it
  number : List ℕ → Shape V
  string : List ℕ → Shape V
  sequence : List V → Shape V
  mapping : List (V × V) → Shape V
  tagged : Shape V

-- The values that a value is made of.
abbrev pub parts : {V : Type 0} → Shape V → List V
parts (sequence items) = items
parts (mapping entries) = map (λ e. e.1) entries
parts _ = []

pub record Tree (Y : Yaml) : Type 0 where
  pub shape : Y.Value → Shape Y.Value
  -- how deep the value is nested
  pub rank : Y.Value → ℕ
  pub rank_parts : (v : Y.Value) → All (λ w. rank w < rank v) (parts (shape v))
  -- `Value::String` and `Value::Mapping`
  pub from_string : List ℕ → Y.Value
  pub from_mapping : List (Y.Value × Y.Value) → Y.Value
  -- `Mapping::remove`, which may move another entry
  pub remove : List (Y.Value × Y.Value) → String → List (Y.Value × Y.Value)
  -- `format!("{:?}", value)`
  pub debug : Y.Value → List ℕ
  -- `serde_yaml_ng::to_string(value).unwrap_or_default()`
  pub print : Y.Value → List ℕ

module _ {V : Type 0} (beq : V → V → Bool) where
  -- `Mapping::get`
  unfoldable pub map_get : List (V × V) → V → Option V
  map_get [] k = none
  map_get ((j, v) ∷ m) k = if beq j k then some v else map_get m k

  abbrev pub contains_key : List (V × V) → V → Bool
  contains_key m k = is_some (map_get m k)

  -- Every entry is found under its key.
  abbrev pub IsFunctional : List (V × V) → Type 0
  IsFunctional m = All (λ e. map_get m e.0 ≡ some e.1) m

  abbrev pub HasEqual : Option V → V → Type 0
  HasEqual none v = ⊥
  HasEqual (some w) v = beq v w ≡ true

  -- Equality of mappings: the same keys, with equal values, in whatever order.
  abbrev pub SameEntries : List (V × V) → List (V × V) → Type 0
  SameEntries m n =
      All (λ e. HasEqual (map_get n e.0) e.1) m × All (λ e. contains_key m e.0 ≡ true) n

  -- Equality of sequences: as long, and equal item by item.
  abbrev pub SameItems : List V → List V → Type 0
  SameItems [] [] = Unit
  SameItems (v ∷ vs) (w ∷ ws) = (beq v w ≡ true) × SameItems vs ws
  SameItems _ _ = ⊥

  -- How values of two shapes are equal, where their parts decide it; `leaf` elsewhere.
  abbrev pub SameParts : Type 0 → Shape V → Shape V → Type 0
  SameParts leaf (mapping m) (mapping n) = SameEntries m n
  SameParts leaf (sequence vs) (sequence ws) = SameItems vs ws
  SameParts leaf _ _ = leaf

  abbrev pub HasFunctional : Shape V → Type 0
  HasFunctional (mapping m) = IsFunctional m
  HasFunctional _ = Unit {0}

-- What the library documents of `==`, and of the keys of a mapping.
pub record IsTree {Y : Yaml} (T : Tree Y) : Type 0 where
  pub reflexive : (v : Y.Value) → Y.value_beq v v ≡ true
  pub parts_decide :
      (v w : Y.Value)
      → (Y.value_beq v w ≡ true)
        ↔ SameParts Y.value_beq (Y.value_beq v w ≡ true) (T.shape v) (T.shape w)
  pub keys_once : (v : Y.Value) → HasFunctional Y.value_beq (T.shape v)
