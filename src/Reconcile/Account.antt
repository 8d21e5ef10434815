-- ===== src/Reconcile/Account.antt =====
-- How the outcome of a pass of crates/synchrotron-reconcile/src/reconcile.rs follows from what is outside.
use synchrotron.Base.{ℕ, ◌≡◌, refl, Option, none, some, List, String, String_eq}
use synchrotron.Base.Result.{Result, ok, err}
use synchrotron.Manifest.{Yaml, Manifest}
use synchrotron.Plan.{Plan, plan, changes}
use synchrotron.Wave.{group_into_waves}
use synchrotron.Wave.Exec.{WaveExecReport, WaveExecError, execute_waves}
use synchrotron.Reconcile.Report.{
  SourceError, not_found, unavailable, ReconcileError, app_not_found, cluster_not_found,
  desired_fetch, live_fetch, ReconcileOutcome, Outside, ReconcileExecutor, Reconciler, State,
  cluster_of,
}
use synchrotron.Reconcile.{
  refetch_failed, with_desired, with_live, plan_only, executor_for, executed, with_both, refetched,
  plan_then_apply, emit_failure, publish_apply_result, record_plan_changes,
}

-- The pass stopped before it had a plan.
abbrev Failed : ReconcileError → ReconcileOutcome → Type 0
Failed error o = (o.plan ≡ none) × (o.error ≡ some error) × (o.apply ≡ none)

-- The pass had a plan and says how its application ended.
abbrev Applied : Plan → Result WaveExecReport WaveExecError → ReconcileOutcome → Type 0
Applied p result o = (o.plan ≡ some p) × (o.error ≡ none) × (o.apply ≡ some result)

-- The reads of a pass, in their order, up to the first that fails, or to the execution of the waves; with
-- the outcome that it leads to and the world that it leaves.
pub data Account {Y : Yaml} {O : Outside Y} (e : ReconcileExecutor O) (fuel : ℕ)
    (app cluster : String) (w : O.World) (o : ReconcileOutcome) : O.World → Type 0 where
  no_app :
      {v : O.World}
      → O.desired w app ≡ (err not_found, v)
      → Failed (app_not_found app) o
      → Account e fuel app cluster w o v
  no_desired :
      {v : O.World} (reason : String)
      → O.desired w app ≡ (err (unavailable reason), v)
      → Failed (desired_fetch app (unavailable reason)) o
      → Account e fuel app cluster w o v
  no_cluster :
      {v u : O.World} {desired : List (Manifest Y)}
      → O.desired w app ≡ (ok desired, v)
      → O.live v app cluster ≡ (err not_found, u)
      → Failed (cluster_not_found cluster) o
      → Account e fuel app cluster w o u
  no_live :
      {v u : O.World} {desired : List (Manifest Y)} (reason : String)
      → O.desired w app ≡ (ok desired, v)
      → O.live v app cluster ≡ (err (unavailable reason), u)
      → Failed (live_fetch app cluster (unavailable reason)) o
      → Account e fuel app cluster w o u
  desired_gone :
      {v u u' : O.World} {desired live : List (Manifest Y)} (error : SourceError)
      → O.desired w app ≡ (ok desired, v)
      → O.live v app cluster ≡ (ok live, u)
      → O.desired u app ≡ (err error, u')
      → Applied (plan desired live) (err (refetch_failed (O.refetch_desired_text error))) o
      → Account e fuel app cluster w o u'
  live_gone :
      {v u u' v' : O.World} {desired live again : List (Manifest Y)} (error : SourceError)
      → O.desired w app ≡ (ok desired, v)
      → O.live v app cluster ≡ (ok live, u)
      → O.desired u app ≡ (ok again, u')
      → O.live u' app cluster ≡ (err error, v')
      → Applied (plan desired live) (err (refetch_failed (O.refetch_live_text error))) o
      → Account e fuel app cluster w o v'
  executes :
      {v u u' v' w' : O.World} {desired live again live_again : List (Manifest Y)}
      (result : Result WaveExecReport WaveExecError)
      → O.desired w app ≡ (ok desired, v)
      → O.live v app cluster ≡ (ok live, u)
      → O.desired u app ≡ (ok again, u')
      → O.live u' app cluster ≡ (ok live_again, v')
      → execute_waves
          (cluster_of O e)
          fuel
          (group_into_waves (plan desired live) again live_again)
          e.config
          again
          live_again
          v'
        ≡ some (result, w')
      → Applied (plan desired live) result o
      → Account e fuel app cluster w o w'

module _ {Y : Yaml} (O : Outside Y) (r : Reconciler O) (e : ReconcileExecutor O) (fuel : ℕ)
    (app cluster trigger : String) where
  -- An answer, if there is one, is accounted for.
  abbrev pub Accounts : O.World → Option (ReconcileOutcome × State O) → Type 0
  Accounts w none = Unit
  Accounts w (some (o, t)) = Account e fuel app cluster w o t.world

  module _ {w v u : O.World} {desired live : List (Manifest Y)}
      (first : O.desired w app ≡ (ok desired, v)) (second : O.live v app cluster ≡ (ok live, u))
      (revision : Option String) where
    executed-Account :
        {u' v' : O.World} {again live_again : List (Manifest Y)} (s : State O)
        → O.desired u app ≡ (ok again, u')
        → O.live u' app cluster ≡ (ok live_again, v')
        → (x : Option (Result WaveExecReport WaveExecError × O.World))
        → execute_waves
            (cluster_of O e)
            fuel
            (group_into_waves (plan desired live) again live_again)
            e.config
            again
            live_again
            v'
          ≡ x
        → Accounts w (executed fuel r app cluster trigger (plan desired live) revision s x)
    unfolding publish_apply_result
    executed-Account s third fourth none h = tt
    executed-Account s third fourth (some (result, w')) h =
        executes result first second third fourth h (refl, refl, refl)

    with_both-Account :
        {u' : O.World} {again : List (Manifest Y)} (s : State O)
        → O.desired u app ≡ (ok again, u')
        → (x : Result (List (Manifest Y)) SourceError × O.World) → O.live u' app cluster ≡ x
        → Accounts w (with_both fuel r app cluster trigger (plan desired live) revision e again s x)
    unfolding publish_apply_result
    with_both-Account s third (err error, v') h =
        live_gone error first second third h (refl, refl, refl)
    with_both-Account s third (ok live_again, v') h = executed-Account s third h _ refl

    refetched-Account :
        (s : State O) (x : Result (List (Manifest Y)) SourceError × O.World)
        → O.desired u app ≡ x
        → Accounts w (refetched fuel r app cluster trigger (plan desired live) revision e s x)
    unfolding publish_apply_result
    refetched-Account s (err error, u') h = desired_gone error first second h (refl, refl, refl)
    refetched-Account s (ok again, u') h = with_both-Account s h _ refl

  module _ (found : executor_for r cluster ≡ some e) where
    with_live-Account :
        {w v : O.World} {desired : List (Manifest Y)} (s : State O)
        → O.desired w app ≡ (ok desired, v)
        → (x : Result (List (Manifest Y)) SourceError × O.World) → O.live v app cluster ≡ x
        → Accounts w
            (plan_then_apply fuel r app cluster trigger s (with_live app cluster desired x.0, x.1))
    unfolding emit_failure
    with_live-Account s first (err not_found, u) h = no_cluster first h (refl, refl, refl)
    with_live-Account s first (err (unavailable reason), u) h =
        no_live reason first h (refl, refl, refl)
    with_live-Account {desired} s first (ok live, u) h = rw found (
        refetched-Account first h (O.desired_revision u app)
          (record_plan_changes r (changes (plan desired live)) (record s { world = u })) _ refl)

    with_desired-Account :
        {w : O.World} (s : State O) (x : Result (List (Manifest Y)) SourceError × O.World)
        → O.desired w app ≡ x
        → Accounts w (plan_then_apply fuel r app cluster trigger s (with_desired O app cluster x))
    unfolding emit_failure
    with_desired-Account s (err not_found, v) h = no_app h (refl, refl, refl)
    with_desired-Account s (err (unavailable reason), v) h = no_desired reason h (refl, refl, refl)
    with_desired-Account s (ok desired, v) h = with_live-Account s h _ refl

    pub plan_then_apply-Account :
        (s : State O)
        → Accounts s.world
            (plan_then_apply fuel r app cluster trigger s (plan_only O s.world app cluster))
    unfolding plan_only
    plan_then_apply-Account s = with_desired-Account s _ refl
