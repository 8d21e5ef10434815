-- ===== src/Wave/Samples.antt =====
-- Tests of the split into waves, and its theorems at concrete inputs.
use synchrotron.Base.{◌≡◌, refl, [], ◌∷◌, String, String_eq, ◌==◌, filter, map}
use synchrotron.Base.Int.{ℤ, ℤ_eq, pos, negsuc}
use synchrotron.Base.Map.{get, insert}
use synchrotron.Base.Sorting.{IsSortedBy, sort_by}
use synchrotron.Base.Text.{
  parse_i32, parse_signed, digits, trim, trim_start, trim_end, is_whitespace,
}
use synchrotron.Base.Keyed.{find_key, KeysOnce}
use synchrotron.Manifest.{Manifest, value}
use synchrotron.Manifest.Samples.{Sample, Node, null, int, str, field, core}
use synchrotron.Plan.{Plan, apply, insert_all}
use synchrotron.Plan.Resources.{of, ref_beq}
use synchrotron.Wave.{
  WaveGroup, wave_of, annotation_wave, clamp_i32, group_into_waves, manifest_by_ref, fill_all,
  split,
}
use synchrotron.Wave.Grouping.{by_wave_number, group_for, wave_for, group_into_waves-eq-group_for}

abbrev annotated : String → Node → Node
annotated key wave = field "metadata" (field "annotations" (field key wave null) null) null

abbrev early : Manifest Sample
early = core 1 "Namespace" "early" (annotated "synchrotron.io/sync-wave" (str " -5 "))

abbrev late : Manifest Sample
late = core 2 "ConfigMap" "late" (annotated "argocd.argoproj.io/sync-wave" (int (pos 99999999999)))

abbrev typo : Manifest Sample
typo = core 3 "ConfigMap" "typo" (annotated "synchrotron.io/sync-wave" (str "5x"))

early_wave : wave_of early ≡ negsuc 4
unfolding wave_of annotation_wave parse_i32 parse_signed digits trim trim_start trim_end
    is_whitespace value
early_wave = refl

late_wave : wave_of late ≡ pos 2147483647
unfolding wave_of annotation_wave clamp_i32 value
late_wave = refl

typo_wave : wave_of typo ≡ pos 0
unfolding wave_of annotation_wave parse_i32 parse_signed digits trim trim_start trim_end
    is_whitespace value
typo_wave = refl

abbrev three_applies : Plan
three_applies = record {
  entries =
      record { resource = of late; action = apply }
      ∷ record { resource = of typo; action = apply }
      ∷ record { resource = of early; action = apply }
      ∷ [];
}

three_waves :
    map
      (λ (g : WaveGroup). g.wave)
      (group_into_waves three_applies (early ∷ late ∷ typo ∷ []) []).waves
    ≡ negsuc 4 ∷ pos 0 ∷ pos 2147483647 ∷ []
unfolding group_into_waves manifest_by_ref fill_all insert_all split wave_of annotation_wave
    parse_i32 parse_signed digits trim trim_start trim_end is_whitespace value clamp_i32 get insert
    sort_by ref_beq
three_waves = refl

group_into_waves-eq-group_for_example :
    let waves = (group_into_waves three_applies (early ∷ late ∷ typo ∷ []) []).waves in
    IsSortedBy by_wave_number waves
    × KeysOnce (λ (g : WaveGroup). g.wave) waves
    × ((w : ℤ)
        → find_key (λ (g : WaveGroup). g.wave) waves w
          ≡ group_for w (
              filter
                (λ e. wave_for (early ∷ late ∷ typo ∷ []) [] e.resource == w)
                three_applies.entries))
group_into_waves-eq-group_for_example =
    group_into_waves-eq-group_for three_applies (early ∷ late ∷ typo ∷ []) []
