-- ===== src/Manifest/Stream/Kinds.antt =====
-- How crates/synchrotron-plugins/src/manifest.rs reads an API version.
use Prim.Native.Char.{Char, code}
use synchrotron.Base.{
  ◌≡◌, ◌⊎◌, refl, ap, inl, inr, Bool, false, ◌||◌, Option, none, some, String, nat_eq, nat_eq_iff,
  Bool-cases,
}
use synchrotron.Manifest.{Gvk}
use synchrotron.Manifest.Stream.{prefixed, split_slash, group_version, parse_gvk}

abbrev pub has_slash : String → Bool
has_slash String.[] = false
has_slash (String.◌∷◌ c s) = nat_eq (code c) b'/' || has_slash s

abbrev pub joined : String → String → String
joined String.[] t = t
joined (String.◌∷◌ c s) t = String.◌∷◌ c (joined s t)

-- The group stands before the first slash of the API version, which goes on with the version; without a
-- slash all of it is the version and the group is empty.
abbrev pub Names : String → String → Gvk → Type 0
Names api_version kind gvk =
    (gvk.kind ≡ kind)
    × (((has_slash api_version ≡ false) × (gvk.group ≡ "") × (gvk.version ≡ api_version))
        ⊎ ((c : Char) × (code c ≡ b'/')
            × (has_slash gvk.group ≡ false)
            × (api_version ≡ joined gvk.group (String.◌∷◌ c gvk.version))))

abbrev Splits : String → Option (String × String) → Type 0
Splits s none = has_slash s ≡ false
Splits s (some (g, v)) =
    (c : Char) × (code c ≡ b'/') × (has_slash g ≡ false) × (s ≡ joined g (String.◌∷◌ c v))

split_slash-Splits : (s : String) → Splits s (split_slash s)
unfolding split_slash
split_slash-Splits String.[] = refl
split_slash-Splits (String.◌∷◌ c s) = elim (Bool-cases (nat_eq (code c) b'/')) [
  | inl h ↦ rw h (c, (nat_eq_iff (code c) b'/').0 h, refl, refl)
  | inr h ↦ rw h (later h (split_slash s) (split_slash-Splits s))
]
  where
    later :
        nat_eq (code c) b'/' ≡ false
        → (o : Option (String × String)) → Splits s o
        → Splits (String.◌∷◌ c s) (prefixed c o)
    later h none ih = rw h ih
    later h (some (g, v)) (d, slash, clean, eq) =
        (d, slash, rw h clean, ap (λ t. String.◌∷◌ c t) eq)

pub parse_gvk-Names :
    (api_version kind : String) → Names api_version kind (parse_gvk api_version kind)
unfolding parse_gvk
parse_gvk-Names api_version kind = go (split_slash api_version) (split_slash-Splits api_version)
  where
    go :
        (o : Option (String × String))
        → Splits api_version o
        → Names api_version kind (group_version api_version kind o)
    go none h = (refl, inl (h, refl, refl))
    go (some (g, v)) h = (refl, inr h)
