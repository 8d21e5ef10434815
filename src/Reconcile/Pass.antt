-- ===== src/Reconcile/Pass.antt =====
-- The two entry points of crates/synchrotron-reconcile/src/reconcile.rs.
use synchrotron.Base.{ℕ, suc, ◌+◌, ◌/◌, ◌<◌, ◌≡◌, refl, subst, none, some, String, String_eq}
use synchrotron.Base.Result.{Result, ok, err}
use synchrotron.Manifest.{Yaml}
use synchrotron.Plan.{Plan}
use synchrotron.Wave.Exec.Terminates.{IsClock}
use synchrotron.Reconcile.Report.{
  ReconcileError, ReconcileOutcome, Outside, ReconcileExecutor, Reconciler, State, cluster_of,
}
use synchrotron.Reconcile.{
  executor_for, plan_only, planned, plan_then_apply, reconcile_app, reconcile_and_apply_app,
}
use synchrotron.Reconcile.Account.{Account, Accounts, plan_then_apply-Account}
use synchrotron.Reconcile.Outcome.{
  OneEvent, Reports, planned-OneEvent, plan_then_apply-OneEvent, plan_then_apply-Returns,
}

-- A plan-only pass publishes exactly one event, for its app, cluster and trigger, which agrees with the
-- outcome it returns, and the outcome has a plan unless it has an error.
pub reconcile_app-OneEvent :
    {Y : Yaml} {O : Outside Y} (r : Reconciler O) (app cluster trigger : String) (s : State O)
    → let (o, t) = reconcile_app r app cluster trigger s in OneEvent app cluster trigger s.bus o t
unfolding reconcile_app
reconcile_app-OneEvent {O} r app cluster trigger s =
    planned-OneEvent O r app cluster trigger s (plan_only O s.world app cluster)

-- A pass that plans and applies, with an executor for its cluster that has a positive poll interval
-- and over a clock that does not run backwards, returns whatever the caches, the applier and the
-- health checker answer, and it publishes exactly one event, which agrees with the outcome. The outcome
-- has the error of the first read that fails before there is a plan; else it has the plan, with an apply
-- error if one of the two later reads fails, and with the result of the executor, its errors included,
-- if none does.
pub reconcile_and_apply_app-OneEvent :
    {Y : Yaml} {O : Outside Y} (r : Reconciler O) (e : ReconcileExecutor O)
    (app cluster trigger : String) (s : State O)
    → executor_for r cluster ≡ some e
    → IsClock (cluster_of O e)
    → 0 < e.config.poll_interval
    → (o : ReconcileOutcome) × (t : State O) × (reconcile_and_apply_app
          (suc (e.config.per_wave_timeout / e.config.poll_interval + 1))
          r
          app
          cluster
          trigger
          s
        ≡ some (o, t))
      × OneEvent app cluster trigger s.bus o t
      × Account e
          (suc (e.config.per_wave_timeout / e.config.poll_interval + 1))
          app
          cluster
          s.world
          o
          t.world
unfolding reconcile_and_apply_app
reconcile_and_apply_app-OneEvent {O} r e app cluster trigger s found clock pos =
    let fuel = suc (e.config.per_wave_timeout / e.config.poll_interval + 1) in
    let x = plan_only O s.world app cluster in
    let (o, t, h) = plan_then_apply-Returns O r app cluster trigger e clock pos found s x in
    (
      o,
      t,
      h,
      subst (Reports O r app cluster trigger s.bus) h
          (plan_then_apply-OneEvent O r app cluster trigger fuel s x),
      subst (Accounts O r e fuel app cluster trigger s.world) h
          (plan_then_apply-Account O r e fuel app cluster trigger found s),
    )

-- Without an executor for the cluster a pass that plans and applies does what the plan-only pass does:
-- the same outcome, the same event and the same metrics.
pub reconcile_and_apply_app-eq-reconcile_app :
    {Y : Yaml} {O : Outside Y} (fuel : ℕ) (r : Reconciler O) (app cluster trigger : String)
    (s : State O)
    → executor_for r cluster ≡ none
    → reconcile_and_apply_app fuel r app cluster trigger s
      ≡ some (reconcile_app r app cluster trigger s)
unfolding reconcile_and_apply_app reconcile_app
reconcile_and_apply_app-eq-reconcile_app {O} fuel r app cluster trigger s absent =
    go (plan_only O s.world app cluster)
  where
    go :
        (x : Result Plan ReconcileError × O.World)
        → plan_then_apply fuel r app cluster trigger s x ≡ some (planned r app cluster trigger s x)
    go (err error, w) = refl
    go (ok p, w) = rw absent refl
