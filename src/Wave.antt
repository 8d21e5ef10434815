-- ===== src/Wave.antt =====
-- crates/synchrotron-reconcile/src/wave.rs: the wave of a manifest, and the split of a plan into waves.
pub mod Annotation
pub mod Grouping
pub mod Exec
pub mod Samples
use synchrotron.Base.{
  ℕ, Bool, true, Option, none, some, List, [], ◌∷◌, ◌++◌, String, if◌then◌else◌, is_empty, ◌^◌, ◌-◌,
  ◌&&◌, map,
}
use synchrotron.Base.Int.{ℤ, ℤ_eq, pos, negsuc, compare_ℤ, ltb_ℤ}
use synchrotron.Base.Map.{Map, get, insert, contains_key}
use synchrotron.Base.Options.{and_then, map_option, or_else}
use synchrotron.Base.Order.{by_key}
use synchrotron.Base.Sorting.{sort_by}
use synchrotron.Base.Text.{parse_i32}
use synchrotron.Manifest.{Yaml, Manifest, value}
use synchrotron.Plan.Resources.{ResourceRef, ResourceRef_eq, of}
use synchrotron.Plan.{PlanEntry, Plan, insert_all}
use synchrotron.KindOrder.{sort_within_wave}

abbrev pub synchrotron_wave_annotation : String
synchrotron_wave_annotation = "synchrotron.io/sync-wave"

abbrev pub argocd_wave_annotation : String
argocd_wave_annotation = "argocd.argoproj.io/sync-wave"

abbrev pub default_wave : ℤ
default_wave = pos 0

-- `clamp(i32::MIN, i32::MAX)`
unfoldable pub clamp_i32 : ℤ → ℤ
clamp_i32 n =
    if ltb_ℤ n (negsuc (2 ^ 31 - 1))
    then negsuc (2 ^ 31 - 1)
    else if ltb_ℤ (pos (2 ^ 31 - 1)) n
    then pos (2 ^ 31 - 1)
    else n

abbrev pub first_wave : Option ℤ → Option ℤ → ℤ
first_wave none none = default_wave
first_wave none (some n) = n
first_wave (some n) _ = n

module _ (Y : Yaml) where
  -- One round of the loop over the two keys: a text that parses, or else an integer.
  unfoldable pub annotation_wave : Y.Value → String → Option ℤ
  unfolding clamp_i32
  annotation_wave annotations key =
      or_else (and_then (and_then (Y.get annotations key) Y.as_str) parse_i32)
        (map_option clamp_i32 (and_then (Y.get annotations key) Y.as_i64))

  abbrev pub annotated_wave : Option Y.Value → ℤ
  annotated_wave none = default_wave
  annotated_wave (some annotations) =
      first_wave (annotation_wave annotations synchrotron_wave_annotation)
        (annotation_wave annotations argocd_wave_annotation)

module _ {Y : Yaml} where
  unfoldable pub wave_of : Manifest Y → ℤ
  unfolding annotation_wave
  wave_of m =
      annotated_wave Y
        (and_then (Y.get (value m.body) "metadata") (λ metadata. Y.get metadata "annotations"))

pub record WaveGroup : Type 0 where
  pub wave : ℤ
  pub entries : List PlanEntry

pub record WavePlan : Type 0 where
  pub waves : List WaveGroup

unfoldable pub wave_plan_is_empty : WavePlan → Bool
wave_plan_is_empty p = all_empty p.waves
  where
    all_empty : List WaveGroup → Bool
    all_empty [] = true
    all_empty (w ∷ ws) = is_empty w.entries && all_empty ws

-- `entry(wave).or_default()` and then `push`
abbrev pub append_to : Option (List PlanEntry) → PlanEntry → List PlanEntry
append_to none e = e ∷ []
append_to (some es) e = es ++ e ∷ []

abbrev pub push : Map ℤ (List PlanEntry) → ℤ → PlanEntry → Map ℤ (List PlanEntry)
push by_wave wave e = insert by_wave wave (append_to (get by_wave wave) e)

abbrev pub group_of : ℤ × List PlanEntry → WaveGroup
group_of (wave, entries) = record { wave = wave; entries = sort_within_wave entries }

module _ {Y : Yaml} where
  -- `for m in live { by_ref.entry(ResourceRef::of(m)).or_insert(m); }`
  unfoldable pub fill_all :
      Map ResourceRef (Manifest Y) → List (Manifest Y) → Map ResourceRef (Manifest Y)
  fill_all by_ref [] = by_ref
  fill_all by_ref (m ∷ ms) =
      fill_all (if contains_key by_ref (of m) then by_ref else insert by_ref (of m) m) ms

  unfoldable pub manifest_by_ref :
      List (Manifest Y) → List (Manifest Y) → Map ResourceRef (Manifest Y)
  unfolding fill_all
  manifest_by_ref desired live = fill_all (insert_all [] desired) live

  abbrev pub wave_or_default : Option (Manifest Y) → ℤ
  wave_or_default none = default_wave
  wave_or_default (some m) = wave_of m

  unfoldable pub split :
      Map ResourceRef (Manifest Y)
      → Map ℤ (List PlanEntry)
      → List PlanEntry
      → Map ℤ (List PlanEntry)
  split by_ref by_wave [] = by_wave
  split by_ref by_wave (e ∷ es) =
      split by_ref (push by_wave (wave_or_default (get by_ref e.resource)) e) es

  unfoldable pub group_into_waves : Plan → List (Manifest Y) → List (Manifest Y) → WavePlan
  unfolding manifest_by_ref split
  group_into_waves plan desired live = record {
    waves =
        sort_by (by_key compare_ℤ (λ w. w.wave))
          (map group_of (split (manifest_by_ref desired live) [] plan.entries));
  }
