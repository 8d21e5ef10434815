-- ===== src/Plan/Samples.antt =====
-- Tests of the planner, and its theorems at concrete inputs.
use text.Mathlib.TextEquality.{eq_iff}
use synchrotron.Base.{arith, ◌≡◌, refl, some, List, [], ◌∷◌}
use synchrotron.Base.Sorting.{sort_by}
use synchrotron.Base.Map.{get, insert}
use synchrotron.Manifest.{Manifest, fnv1a64, body_beq}
use synchrotron.Manifest.Samples.{Sample, str, core}
use synchrotron.Plan.Resources.{ResourceRef, of, ref_beq}
use synchrotron.Plan.{delete, plan, apply_count, delete_count, noop_count, manifest_bodies_equal}
use synchrotron.Plan.Lookup.{action_at, find_last, verdict}
use synchrotron.Plan.Table.{plan-eq-verdict}
use synchrotron.Plan.Canonical.{plan_order_independent}

abbrev pub keep : Manifest Sample
keep = core 1 "ConfigMap" "keep" (str "v1")

abbrev pub update : Manifest Sample
update = core 2 "ConfigMap" "update" (str "v2")

abbrev pub updated_live : Manifest Sample
updated_live = core 3 "ConfigMap" "update" (str "v1")

abbrev pub orphan : Manifest Sample
orphan = core 4 "ConfigMap" "orphan" (str "v1")

abbrev desired : List (Manifest Sample)
desired = update ∷ keep ∷ []

abbrev live : List (Manifest Sample)
live = keep ∷ updated_live ∷ orphan ∷ []

-- One no-op, one update and one deletion, in the order of the names.
mixed_drift :
    (action_at (plan desired live).entries (of orphan) ≡ some delete)
    × (noop_count (plan desired live) ≡ 1)
    × (apply_count (plan desired live) ≡ 1)
    × (delete_count (plan desired live) ≡ 1)
unfolding plan action_at ref_beq noop_count apply_count delete_count manifest_bodies_equal fnv1a64
    body_beq sort_by insert get
mixed_drift = (refl, refl, refl, refl)

plan-eq-verdict_example :
    action_at (plan desired live).entries (of orphan)
    ≡ verdict (find_last desired (of orphan)) (find_last live (of orphan))
plan-eq-verdict_example = plan-eq-verdict desired live (of orphan)

swapped : (r : ResourceRef) → find_last desired r ≡ find_last (keep ∷ update ∷ []) r
unfolding find_last ref_beq
swapped r = ground (arith, eq_iff "keep" r.name, eq_iff "update" r.name, eq_iff "keep" "update")

plan_order_independent_example : plan desired live ≡ plan (keep ∷ update ∷ []) live
plan_order_independent_example =
    plan_order_independent desired (keep ∷ update ∷ []) live live swapped (λ r. refl)
