-- ===== src/Manifest/Bodies.antt =====
-- Laws of the tiered equality of manifest bodies.
use synchrotron.Base.{
  ℕ, ◌≡◌, ◌≢◌, ◌↔◌, ◌⊎◌, refl, subst, true, false, Option, none, some, List, arith, ℕ_eq,
  nat_eq_iff, list_beq_iff,
}
use synchrotron.Base.Options.{map_option}
use synchrotron.Manifest.{Yaml, ManifestBody, value, body_beq, fnv1a64, from_value, from_bytes}

module _ {Y : Yaml} where
  -- The hash is that of the bytes.
  pub record IsHashed (b : ManifestBody Y) : Type 0 where
    pub hashed : b.hash ≡ fnv1a64 b.bytes

  -- One allocation holds one text.
  abbrev pub SharesAllocation : ManifestBody Y → ManifestBody Y → Type 0
  SharesAllocation a b = a.address ≡ b.address → a.bytes ≡ b.bytes

  pub from_value-IsHashed :
      (address : ℕ) (v : Y.Value) (b : ManifestBody Y) → from_value address v ≡ some b → IsHashed b
  unfolding from_value
  from_value-IsHashed address v b h = go (Y.to_vec v) h
    where
      body : List ℕ → ManifestBody Y
      body bytes = record {
        address = address;
        bytes = bytes;
        hash = fnv1a64 bytes;
        parsed = some v;
      }

      go : (o : Option (List ℕ)) → map_option body o ≡ some b → IsHashed b
      go none h = absurd (cc h)
      go (some bytes) h =
          let same : body bytes ≡ b = cc h in subst IsHashed same (record { hashed = refl })

  pub from_bytes-IsHashed : (address : ℕ) (bytes : List ℕ) → IsHashed (from_bytes address bytes)
  unfolding from_bytes
  from_bytes-IsHashed address bytes = record { hashed = refl }

  -- Two bodies with the hash of their bytes are equal exactly when the hashes agree and the bytes
  -- or the parsed values are equal, whichever tier answers.
  pub body_beq_iff :
      (a b : ManifestBody Y)
      → IsHashed a
      → IsHashed b
      → SharesAllocation a b
      → (body_beq a b ≡ true) ↔ (
          (fnv1a64 a.bytes ≡ fnv1a64 b.bytes)
          × ((a.bytes ≡ b.bytes) ⊎ (Y.value_beq (value a) (value b) ≡ true)))
  unfolding body_beq
  body_beq_iff a b ha hb s = (
    λ h. ground (
      arith,
      s,
      ha.hashed,
      hb.hashed,
      nat_eq_iff a.hash b.hash,
      nat_eq_iff a.address b.address,
      list_beq_iff a.bytes b.bytes,
    ),
    λ h. ground (
      arith,
      h.0,
      h.1,
      ha.hashed,
      hb.hashed,
      nat_eq_iff a.hash b.hash,
      nat_eq_iff a.address b.address,
      list_beq_iff a.bytes b.bytes,
    ),
  )

  -- Bodies whose texts hash differently differ, even where their parsed values are equal.
  pub body_beq-false_of_hash :
      (a b : ManifestBody Y)
      → IsHashed a
      → IsHashed b
      → Y.value_beq (value a) (value b) ≡ true
      → fnv1a64 a.bytes ≢ fnv1a64 b.bytes
      → body_beq a b ≡ false
  unfolding body_beq
  body_beq-false_of_hash a b ha hb e n =
      ground (arith, ha.hashed, hb.hashed, nat_eq_iff a.hash b.hash)
