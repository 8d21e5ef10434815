-- ===== src/Prune/Samples.antt =====
-- Tests of the prune sweep, and its theorems at concrete inputs.
use mathlib.Core.List.{Perm, Pairwise}
use synchrotron.Base.{◌≡◌, refl, true, false, none, some, List, [], ◌∷◌, String, filter}
use synchrotron.Base.Int.{ℤ, pos, negsuc}
use synchrotron.Base.Result.{ok, err}
use synchrotron.Base.Sorting.{sort_by}
use synchrotron.Base.Text.{codes}
use synchrotron.Manifest.{Manifest, value}
use synchrotron.Manifest.Stream.{OwnedResource}
use synchrotron.Manifest.Samples.{Sample, null, str, field, core}
use synchrotron.Plan.Resources.{ref_beq}
use synchrotron.Prune.{
  compute_prune_set, is_prune_disabled, api, server, namespaced, Api, delete_owned,
}
use synchrotron.Prune.Sweep.{Precedes, is_candidate, compute_prune_set-Sweeps}

abbrev owned : String → String → ℤ → OwnedResource
owned kind name wave = record {
  gvk = record { group = ""; version = "v1"; kind = kind };
  namespace = some "app";
  name = name;
  wave = wave;
  prune_disabled = false;
}

abbrev kept_claim : OwnedResource
kept_claim = record (owned "PersistentVolumeClaim" "db" (pos 0)) { prune_disabled = true }

abbrev desired : List (Manifest Sample)
desired = core 1 "Service" "web" null ∷ []

abbrev stored : List OwnedResource
stored =
    owned "ConfigMap" "old" (negsuc 0)
    ∷ kept_claim
    ∷ owned "Service" "web" (pos 5)
    ∷ owned "Service" "legacy" (pos 5)
    ∷ []

legacy_before_config :
    compute_prune_set stored desired
    ≡ owned "Service" "legacy" (pos 5) ∷ owned "ConfigMap" "old" (negsuc 0) ∷ []
unfolding compute_prune_set sort_by ref_beq
legacy_before_config = refl

compute_prune_set-Sweeps_example :
    Perm (compute_prune_set stored desired) (filter (is_candidate desired) stored)
    × Pairwise Precedes (compute_prune_set stored desired)
compute_prune_set-Sweeps_example = compute_prune_set-Sweeps desired stored

abbrev annotated : String → String → Manifest Sample
annotated key text' =
    core 1 "ConfigMap" "kept"
      (field "metadata" (field "annotations" (field key (str text') null) null) null)

native_opt_out : is_prune_disabled (annotated "synchrotron.io/prune" " FALSE ") ≡ true
unfolding is_prune_disabled value
native_opt_out = refl

argo_opt_out :
    is_prune_disabled (annotated "argocd.argoproj.io/sync-options" "Validate=false, Prune=false")
    ≡ true
unfolding is_prune_disabled value
argo_opt_out = refl

argo_case_matters :
    is_prune_disabled (annotated "argocd.argoproj.io/sync-options" "prune=false") ≡ false
unfolding is_prune_disabled value
argo_case_matters = refl

-- A server on which nothing is left.
abbrev emptied : Api
emptied = record {
  World = Unit {0};
  discover = λ w gvk. (ok namespaced, w);
  delete = λ w gvk ns name. (err (api 404 "NotFound" "gone"), w);
}

gone_is_deleted : delete_owned emptied (owned "ConfigMap" "old" (pos 0)) tt ≡ (ok tt, tt)
unfolding delete_owned
gone_is_deleted = refl

without_namespace :
    delete_owned emptied (record (owned "ConfigMap" "old" (pos 0)) { namespace = none }) tt
    ≡ (err (server (codes "ConfigMap is namespaced but owned-record for old has no namespace")), tt)
unfolding delete_owned
without_namespace = refl
