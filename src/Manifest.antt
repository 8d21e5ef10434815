-- ===== src/Manifest.antt =====
-- crates/synchrotron-plugins/src/manifest.rs: the manifest, its body and the body's equality.
-- The YAML value (`serde_yaml_ng::Value`) and its JSON form (`serde_json`) are other libraries'
-- types: a parameter, `Yaml`, with the accessors that the program calls.
pub mod Bodies
pub mod Stream
pub mod Samples
use Prim.Native.Nat.{bit_xor}
use synchrotron.Base.{
  ℕ, ◌*◌, ◌%◌, ◌^◌, ◌≡◌, ◌↔◌, Bool, true, false, ◌&&◌, not, Option, none, some, List, [], ◌∷◌,
  String, arith, PartialEq, ◌==◌, if◌then◌else◌, ℕ_eq, String_eq, List_eq,
}
use synchrotron.Base.Int.{ℤ}
use synchrotron.Base.Options.{map_option}
use text.Mathlib.TextEquality.{eq_iff}

-- `serde_yaml_ng::Value` behind the accessors that the source calls.
pub record Yaml : Type 1 where
  pub Value : Type 0
  -- `==`, which compares mappings without the order of their entries
  pub value_beq : Value → Value → Bool
  pub is_null : Value → Bool
  -- `value.get(key)`: a field of a mapping, and nothing of any other value
  pub get : Value → String → Option Value
  pub as_str : Value → Option String
  pub as_i64 : Value → Option ℤ
  pub as_bool : Value → Option Bool
  pub as_sequence : Value → Option (List Value)
  -- `serde_json::to_vec`, which fails, for instance, on a mapping key that is null or a sequence
  pub to_vec : Value → Option (List ℕ)
  -- `serde_json::from_slice`, which the program expects to succeed on what it wrote itself
  pub from_slice : List ℕ → Value

pub record Gvk : Type 0 where
  pub group : String
  pub version : String
  pub kind : String

abbrev pub gvk_beq : Gvk → Gvk → Bool
gvk_beq a b = a.group == b.group && a.version == b.version && a.kind == b.kind

pub gvk_beq_iff : (a b : Gvk) → (gvk_beq a b ≡ true) ↔ (a ≡ b)
gvk_beq_iff a b =
    ground (arith, eq_iff a.group b.group, eq_iff a.version b.version, eq_iff a.kind b.kind)

instance abbrev pub Gvk_eq : PartialEq Gvk
Gvk_eq = record { tests = gvk_beq; decides = gvk_beq_iff }

-- The bytes are shared by reference: `address` tells one allocation from another. The parsed view
-- is computed once, from the bytes unless the body was built from a value.
pub record ManifestBody (Y : Yaml) : Type 0 where
  pub address : ℕ
  pub bytes : List ℕ
  pub hash : ℕ
  pub parsed : Option Y.Value

-- One byte of FNV-1a: xor, then a wrapping product.
fnv_step : ℕ → ℕ → ℕ
fnv_step h b = (bit_xor h b * 0x00000100000001b3) % 2 ^ 64

fnv_bytes : ℕ → List ℕ → ℕ
unfolding fnv_step
fnv_bytes h [] = h
fnv_bytes h (b ∷ bytes) = fnv_bytes (fnv_step h b) bytes

unfoldable pub fnv1a64 : List ℕ → ℕ
unfolding fnv_bytes
fnv1a64 bytes = fnv_bytes 0xcbf29ce484222325 bytes

module _ {Y : Yaml} where
  -- `value`: the parsed view, from the cell or from the bytes
  unfoldable pub value : ManifestBody Y → Y.Value
  value b = elim b.parsed [ some v ↦ v | none ↦ Y.from_slice b.bytes ]

  -- `from_value`, at the address that the allocation has; the `expect` panics where there is none.
  unfoldable pub from_value : ℕ → Y.Value → Option (ManifestBody Y)
  from_value address v =
      map_option
        (λ bytes. record {
          address = address;
          bytes = bytes;
          hash = fnv1a64 bytes;
          parsed = some v;
        })
        (Y.to_vec v)

  pub from_bytes : ℕ → List ℕ → ManifestBody Y
  from_bytes address bytes = record {
    address = address;
    bytes = bytes;
    hash = fnv1a64 bytes;
    parsed = none;
  }

  -- `PartialEq for ManifestBody`, tier by tier
  unfoldable pub body_beq : ManifestBody Y → ManifestBody Y → Bool
  unfolding value
  body_beq a b =
      if not (a.hash == b.hash)
      then false
      else if a.address == b.address
      then true
      else if a.bytes == b.bytes
      then true
      else Y.value_beq (value a) (value b)

pub record Manifest (Y : Yaml) : Type 0 where
  pub gvk : Gvk
  pub name : String
  pub namespace : Option String
  pub body : ManifestBody Y
