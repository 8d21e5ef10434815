-- ===== src/Reconcile.antt =====
-- crates/synchrotron-reconcile/src/reconcile.rs: one reconcile pass of an app. The caches that it reads, the
-- clock and the printing of errors are the interface Outside; what a read returns may change
-- from one read to the next. Durations in metrics are left out.
pub mod Report
pub mod Account
pub mod Outcome
pub mod Pass
pub mod Samples
use synchrotron.Base.{
  ℕ, ◌+◌, ◌%◌, ◌^◌, Bool, true, false, not, ◌&&◌, Option, none, some, List, [], ◌∷◌, ◌++◌, String,
  String_eq, if◌then◌else◌,
}
use synchrotron.Base.Int.{pos}
use synchrotron.Base.Map.{Map, get, insert}
use synchrotron.Base.Options.{or_else}
use synchrotron.Base.Result.{Result, ok, err}
use synchrotron.Health.{HealthStatusCode}
use synchrotron.Manifest.{Yaml, Manifest}
use synchrotron.Plan.Resources.{ResourceRef}
use synchrotron.Plan.{Plan, PlanEntry, plan, changes}
use synchrotron.Wave.{group_into_waves}
use synchrotron.Wave.Exec.{
  ApplyError, WaveExecConfig, WaveExecError, apply_failed, WaveExecReport, Cluster, execute_waves,
}
use synchrotron.Reconcile.Report.{
  SourceError, not_found, unavailable, ReconcileError, app_not_found, cluster_not_found,
  desired_fetch, live_fetch, ReconcileOutcome, applied_well, is_none, success, SyncOutcome, Outside,
  ReconcileExecutor, Reconciler, State, cluster_of,
}

abbrev pub desired_error : String → SourceError → ReconcileError
desired_error app not_found = app_not_found app
desired_error app (unavailable reason) = desired_fetch app (unavailable reason)

abbrev pub live_error : String → String → SourceError → ReconcileError
live_error app cluster not_found = cluster_not_found cluster
live_error app cluster (unavailable reason) = live_fetch app cluster (unavailable reason)

-- The event of a pass that planned.
abbrev pub planned_event :
    String → String → String → Plan → Option String → Bool → Option String → SyncOutcome
planned_event app cluster trigger p revision succeeded message = record {
  app = app;
  cluster = cluster;
  success = succeeded;
  message = message;
  trigger = trigger;
  revision = revision;
  resources_synced = changes p % 2 ^ 32;
}

abbrev pub verdict_of : Result WaveExecReport WaveExecError → Bool
verdict_of (ok report) = true
verdict_of (err e) = false

abbrev pub refetch_failed : String → WaveExecError
refetch_failed reason =
    apply_failed (pos 0)
      (record { gvk = record { group = ""; version = ""; kind = "" }; namespace = none; name = "" })
      (record { reason = reason })

module _ {Y : Yaml} where
  abbrev pub with_live :
      String
      → String
      → List (Manifest Y)
      → Result (List (Manifest Y)) SourceError
      → Result Plan ReconcileError
  with_live app cluster desired (err e) = err (live_error app cluster e)
  with_live app cluster desired (ok live) = ok (plan desired live)

module _ {Y : Yaml} (O : Outside Y) where
  -- The second cache is read only if the first read succeeds.
  abbrev pub with_desired :
      String
      → String
      → Result (List (Manifest Y)) SourceError × O.World
      → Result Plan ReconcileError × O.World
  with_desired app cluster (err e, w) = (err (desired_error app e), w)
  with_desired app cluster (ok desired, w) =
      let (live, v) = O.live w app cluster in (with_live app cluster desired live, v)

  unfoldable pub plan_only : O.World → String → String → Result Plan ReconcileError × O.World
  plan_only w app cluster = with_desired app cluster (O.desired w app)

  abbrev pub message_of : Result WaveExecReport WaveExecError → Option String
  message_of (ok report) = none
  message_of (err e) = some (O.wave_text e)

module _ {Y : Yaml} {O : Outside Y} where
  unfoldable pub executor_for : Reconciler O → String → Option (ReconcileExecutor O)
  executor_for r cluster = or_else (get r.cluster_executors cluster) r.default_executor

  abbrev pub record_reconcile : Reconciler O → Bool → State O → State O
  record_reconcile r succeeded s = record s {
    reconciles = if r.has_metrics then s.reconciles ++ succeeded ∷ [] else s.reconciles;
  }

  abbrev pub record_plan_changes : Reconciler O → ℕ → State O → State O
  record_plan_changes r n s = record s {
    plan_changes = if r.has_metrics then s.plan_changes ++ n ∷ [] else s.plan_changes;
  }

  abbrev pub publish : SyncOutcome → State O → State O
  publish event s = record s { bus = s.bus ++ event ∷ [] }

  unfoldable pub emit_failure :
      Reconciler O
      → String
      → String
      → ReconcileError
      → String
      → State O
      → ReconcileOutcome × State O
  emit_failure r app cluster error trigger s = (
    record { app = app; cluster = cluster; plan = none; error = some error; apply = none },
    publish
        (record {
          app = app;
          cluster = cluster;
          success = false;
          message = some (O.reconcile_text error);
          trigger = trigger;
          revision = none;
          resources_synced = 0;
        })
        (record_reconcile r false s),
  )

  abbrev pub planned :
      Reconciler O
      → String
      → String
      → String
      → State O
      → Result Plan ReconcileError × O.World
      → ReconcileOutcome × State O
  planned r app cluster trigger s (err error, w) =
      emit_failure r app cluster error trigger (record s { world = w })
  planned r app cluster trigger s (ok p, w) = (
    record { app = app; cluster = cluster; plan = some p; error = none; apply = none },
    publish (planned_event app cluster trigger p (O.desired_revision w app) true none)
        (record_plan_changes r (changes p) (record_reconcile r true (record s { world = w }))),
  )

  unfoldable pub reconcile_app :
      Reconciler O → String → String → String → State O → ReconcileOutcome × State O
  unfolding emit_failure plan_only
  reconcile_app r app cluster trigger s =
      planned r app cluster trigger s (plan_only O s.world app cluster)

  -- `publish_apply_result`, and the outcome that the callers return with it.
  unfoldable pub publish_apply_result :
      Reconciler O
      → String
      → String
      → String
      → Plan
      → Option String
      → Result WaveExecReport WaveExecError
      → State O
      → ReconcileOutcome × State O
  publish_apply_result r app cluster trigger p revision result s = (
    record { app = app; cluster = cluster; plan = some p; error = none; apply = some result },
    publish (planned_event app cluster trigger p revision (verdict_of result) (message_of O result))
        (record_reconcile r (verdict_of result) s),
  )

  module _ (fuel : ℕ) (r : Reconciler O) (app cluster trigger : String) (p : Plan)
      (revision : Option String) where
    abbrev pub executed :
        State O
        → Option (Result WaveExecReport WaveExecError × O.World)
        → Option (ReconcileOutcome × State O)
    executed s none = none
    executed s (some (result, w)) =
        some (publish_apply_result r app cluster trigger p revision result (record s { world = w }))

    abbrev pub with_both :
        ReconcileExecutor O
        → List (Manifest Y)
        → State O
        → Result (List (Manifest Y)) SourceError × O.World
        → Option (ReconcileOutcome × State O)
    with_both e desired s (err error, w) = some (
        publish_apply_result r app cluster trigger p revision
          (err (refetch_failed (O.refetch_live_text error))) (record s { world = w }))
    with_both e desired s (ok live, w) = executed s (
        execute_waves (cluster_of O e) fuel (group_into_waves p desired live) e.config desired live
          w)

    -- The caches are read again to group the plan into waves.
    abbrev pub refetched :
        ReconcileExecutor O
        → State O
        → Result (List (Manifest Y)) SourceError × O.World
        → Option (ReconcileOutcome × State O)
    refetched e s (err error, w) = some (
        publish_apply_result r app cluster trigger p revision
          (err (refetch_failed (O.refetch_desired_text error))) (record s { world = w }))
    refetched e s (ok desired, w) = with_both e desired s (O.live w app cluster)

    abbrev pub apply_with :
        State O → Option (ReconcileExecutor O) → Option (ReconcileOutcome × State O)
    apply_with s none = some (
      record { app = app; cluster = cluster; plan = some p; error = none; apply = none },
      publish (planned_event app cluster trigger p revision true none) (record_reconcile r true s),
    )
    apply_with s (some e) = refetched e s (O.desired s.world app)

  abbrev pub plan_then_apply :
      ℕ
      → Reconciler O
      → String
      → String
      → String
      → State O
      → Result Plan ReconcileError × O.World
      → Option (ReconcileOutcome × State O)
  plan_then_apply fuel r app cluster trigger s (err error, w) =
      some (emit_failure r app cluster error trigger (record s { world = w }))
  plan_then_apply fuel r app cluster trigger s (ok p, w) =
      apply_with fuel r app cluster trigger p (O.desired_revision w app)
        (record_plan_changes r (changes p) (record s { world = w })) (executor_for r cluster)

  -- Nothing only if the fuel of the wave executor is short.
  unfoldable pub reconcile_and_apply_app :
      ℕ → Reconciler O → String → String → String → State O → Option (ReconcileOutcome × State O)
  unfolding emit_failure plan_only publish_apply_result executor_for
  reconcile_and_apply_app fuel r app cluster trigger s =
      plan_then_apply fuel r app cluster trigger s (plan_only O s.world app cluster)
