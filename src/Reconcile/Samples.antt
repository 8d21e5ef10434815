-- ===== src/Reconcile/Samples.antt =====
-- Tests of the reconcile pass, and its theorems at concrete inputs.
use synchrotron.Base.{
  ℕ, suc, ◌+◌, ◌/◌, ◌≡◌, refl, true, none, some, [], ◌∷◌, String_eq, arith, ◌==◌, if◌then◌else◌,
}
use synchrotron.Base.Map.{get}
use synchrotron.Base.Result.{ok, err}
use synchrotron.Health.{HealthStatusCode}
use synchrotron.Manifest.Samples.{Sample}
use synchrotron.Plan.Samples.{keep, update, updated_live, orphan}
use synchrotron.Wave.Exec.Terminates.{IsClock}
use synchrotron.Reconcile.Report.{
  not_found, app_not_found, ReconcileOutcome, Outside, ReconcileExecutor, Reconciler, State,
  cluster_of,
}
use synchrotron.Reconcile.{
  executor_for, plan_only, emit_failure, reconcile_app, reconcile_and_apply_app,
}
use synchrotron.Reconcile.Account.{Account}
use synchrotron.Reconcile.Outcome.{OneEvent}
use synchrotron.Reconcile.Pass.{reconcile_and_apply_app-OneEvent}

-- One app is known; its live state is always the same.
abbrev caches : Outside Sample
caches = record {
  World = ℕ;
  desired = λ w app. (if app == "guestbook" then ok (update ∷ keep ∷ []) else err not_found, w);
  live = λ w app cluster. (ok (keep ∷ updated_live ∷ orphan ∷ []), w);
  desired_revision = λ w app. some "abc123";
  now = λ w. w;
  sleep = λ w d. w + d;
  reconcile_text = λ e. "reconcile failed";
  wave_text = λ e. "wave failed";
  refetch_desired_text = λ e. "no desired manifests";
  refetch_live_text = λ e. "no live manifests";
}

abbrev always_well : ReconcileExecutor caches
always_well = record {
  applier = λ w e m. (ok tt, w + 1);
  health = λ w refs. (HealthStatusCode.healthy, w + 1);
  config = record { per_wave_timeout = 100; poll_interval = 10 };
}

abbrev with_executor : Reconciler caches
with_executor = record {
  has_metrics = true;
  default_executor = some always_well;
  cluster_executors = [];
}

abbrev plan_only_mode : Reconciler caches
plan_only_mode = record { has_metrics = true; default_executor = none; cluster_executors = [] }

abbrev idle : State caches
idle = record { world = 0; bus = []; reconciles = []; plan_changes = [] }

unknown_app :
    (reconcile_app plan_only_mode "other" "prod" "poll" idle).0.error ≡ some (app_not_found "other")
unfolding reconcile_app plan_only emit_failure
unknown_app = refl

executor_found : executor_for with_executor "prod" ≡ some always_well
unfolding executor_for get
executor_found = refl

always_well-IsClock : IsClock (cluster_of caches always_well)
always_well-IsClock = record {
  check_takes = λ w refs. omega arith;
  sleep_takes = λ w d. omega arith;
}

reconcile_and_apply_app-OneEvent_example :
    (o : ReconcileOutcome) × (t : State caches) × (reconcile_and_apply_app
        (suc (100 / 10 + 1))
        with_executor
        "guestbook"
        "prod"
        "manual"
        idle
      ≡ some (o, t))
    × OneEvent "guestbook" "prod" "manual" [] o t
    × Account always_well (suc (100 / 10 + 1)) "guestbook" "prod" 0 o t.world
reconcile_and_apply_app-OneEvent_example =
    reconcile_and_apply_app-OneEvent with_executor always_well "guestbook" "prod" "manual" idle
      executor_found always_well-IsClock (omega arith)

nothing_found : executor_for plan_only_mode "prod" ≡ none
unfolding executor_for get
nothing_found = refl
