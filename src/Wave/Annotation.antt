-- ===== src/Wave/Annotation.antt =====
-- The wave that an annotation gives, crates/synchrotron-reconcile/src/wave.rs.
use synchrotron.Base.{◌^◌, ◌≡◌, true, Option, none, some, String, arith}
use synchrotron.Base.Int.{ℤ, pos, negsuc}
use synchrotron.Base.Text.{codes, trim, parse_i32, in_range, AllInRange, parse_signed-AllInRange}
use synchrotron.Manifest.{Yaml, Manifest, value}
use synchrotron.Base.Options.{and_then, or_else, map_option}
use synchrotron.Wave.{
  clamp_i32, annotation_wave, first_wave, wave_of, annotated_wave, synchrotron_wave_annotation,
  argocd_wave_annotation,
}

abbrev pub IsI32 : ℤ → Type 0
IsI32 n = in_range (2 ^ 31) n ≡ true

clamp_i32-IsI32 : (n : ℤ) → IsI32 (clamp_i32 n)
unfolding clamp_i32
clamp_i32-IsI32 (pos n) = ground arith
clamp_i32-IsI32 (negsuc n) = ground arith

number_wave : (o : Option ℤ) → AllInRange (2 ^ 31) (map_option clamp_i32 o)
number_wave none = tt
number_wave (some n) = clamp_i32-IsI32 n

module _ (Y : Yaml) where
  text_wave : (o : Option Y.Value) → AllInRange (2 ^ 31) (and_then (and_then o Y.as_str) parse_i32)
  unfolding parse_i32
  text_wave none = tt
  text_wave (some v) = go (Y.as_str v)
    where
      go : (t : Option String) → AllInRange (2 ^ 31) (and_then t parse_i32)
      go none = tt
      go (some s) = parse_signed-AllInRange (2 ^ 31) (trim (codes s))

  annotation_wave-AllInRange :
      (annotations : Y.Value) (key : String)
      → AllInRange (2 ^ 31) (annotation_wave Y annotations key)
  unfolding annotation_wave
  annotation_wave-AllInRange annotations key =
      either _ _ (text_wave (Y.get annotations key))
        (number_wave (and_then (Y.get annotations key) Y.as_i64))
    where
      either :
          (a b : Option ℤ)
          → AllInRange (2 ^ 31) a
          → AllInRange (2 ^ 31) b
          → AllInRange (2 ^ 31) (or_else a b)
      either none b p q = q
      either (some n) b p q = p

module _ {Y : Yaml} where
  -- The wave of any manifest is a value of `i32`, whatever its annotations hold: a text that does not
  -- parse or is out of range is passed over, and an integer out of range is clamped.
  pub wave_of-IsI32 : (m : Manifest Y) → IsI32 (wave_of m)
  unfolding wave_of
  wave_of-IsI32 m =
      go (and_then (Y.get (value m.body) "metadata") (λ metadata. Y.get metadata "annotations"))
    where
      first :
          (a b : Option ℤ) → AllInRange (2 ^ 31) a → AllInRange (2 ^ 31) b → IsI32 (first_wave a b)
      first none none p q = ground arith
      first none (some n) p q = q
      first (some n) b p q = p

      go : (o : Option Y.Value) → IsI32 (annotated_wave Y o)
      go none = ground arith
      go (some annotations) =
          first _ _ (annotation_wave-AllInRange Y annotations synchrotron_wave_annotation)
            (annotation_wave-AllInRange Y annotations argocd_wave_annotation)
