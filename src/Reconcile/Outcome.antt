-- ===== src/Reconcile/Outcome.antt =====
-- What a pass of crates/synchrotron-reconcile/src/reconcile.rs reports.
use synchrotron.Base.{
  ℕ, suc, ◌+◌, ◌/◌, ◌<◌, ◌≡◌, refl, ap, true, false, Option, none, some, List, [], ◌∷◌, ◌++◌,
  String, String_eq,
}
use synchrotron.Base.Result.{Result, ok, err}
use synchrotron.Manifest.{Yaml, Manifest}
use synchrotron.Plan.{Plan, changes}
use synchrotron.Wave.{group_into_waves}
use synchrotron.Wave.Exec.{WaveExecReport, WaveExecError}
use synchrotron.Wave.Exec.Terminates.{IsClock, execute_waves_terminates}
use synchrotron.Reconcile.Report.{
  SourceError, ReconcileError, ReconcileOutcome, success, SyncOutcome, Outside, ReconcileExecutor,
  Reconciler, State, cluster_of, is_none,
}
use synchrotron.Reconcile.{
  executor_for, planned, emit_failure, publish_apply_result, executed, with_both, refetched,
  apply_with, plan_then_apply, record_plan_changes,
}

-- A pass appends one event to the bus: it names the app, the cluster and the trigger, and it says
-- success, without a message, exactly if the returned outcome is a success.
pub record OneEvent {Y : Yaml} {O : Outside Y} (app cluster trigger : String)
    (bus : List SyncOutcome) (o : ReconcileOutcome) (t : State O) : Type 0 where
  pub event : SyncOutcome
  pub published : t.bus ≡ bus ++ event ∷ []
  pub names : (event.app ≡ app) × (event.cluster ≡ cluster) × (event.trigger ≡ trigger)
  pub returned : (o.app ≡ app) × (o.cluster ≡ cluster)
  pub agrees : event.success ≡ success o
  pub explained : is_none event.message ≡ success o
  pub plan_or_error : is_none o.error ≡ true → is_none o.plan ≡ false

module _ {Y : Yaml} (O : Outside Y) (r : Reconciler O) (app cluster trigger : String) where
  -- An answer, if there is one, comes with one event.
  abbrev pub Reports : List SyncOutcome → Option (ReconcileOutcome × State O) → Type 0
  Reports bus none = Unit
  Reports bus (some (o, t)) = OneEvent app cluster trigger bus o t

  failure-OneEvent :
      (error : ReconcileError) (s : State O)
      → Reports s.bus (some (emit_failure r app cluster error trigger s))
  unfolding emit_failure
  failure-OneEvent error s = record {
    event = _;
    published = refl;
    names = (refl, refl, refl);
    returned = (refl, refl);
    agrees = unfold success in refl;
    explained = unfold success in refl;
    plan_or_error = λ h. cc h;
  }

  publish_apply_result-OneEvent :
      (p : Plan) (revision : Option String) (result : Result WaveExecReport WaveExecError)
      (s : State O)
      → Reports s.bus (some (publish_apply_result r app cluster trigger p revision result s))
  unfolding publish_apply_result
  publish_apply_result-OneEvent p revision (ok report) s = record {
    event = _;
    published = refl;
    names = (refl, refl, refl);
    returned = (refl, refl);
    agrees = unfold success in refl;
    explained = unfold success in refl;
    plan_or_error = λ h. refl;
  }
  publish_apply_result-OneEvent p revision (err error) s = record {
    event = _;
    published = refl;
    names = (refl, refl, refl);
    returned = (refl, refl);
    agrees = unfold success in refl;
    explained = unfold success in refl;
    plan_or_error = λ h. refl;
  }

  pub planned-OneEvent :
      (s : State O) (x : Result Plan ReconcileError × O.World)
      → Reports s.bus (some (planned r app cluster trigger s x))
  planned-OneEvent s (err error, w) = failure-OneEvent error (record s { world = w })
  planned-OneEvent s (ok p, w) = record {
    event = _;
    published = refl;
    names = (refl, refl, refl);
    returned = (refl, refl);
    agrees = unfold success in refl;
    explained = unfold success in refl;
    plan_or_error = λ h. refl;
  }

  executed-OneEvent :
      (fuel : ℕ) (p : Plan) (revision : Option String) (s : State O)
      (x : Option (Result WaveExecReport WaveExecError × O.World))
      → Reports s.bus (executed fuel r app cluster trigger p revision s x)
  executed-OneEvent fuel p revision s none = tt
  executed-OneEvent fuel p revision s (some (result, w)) =
      publish_apply_result-OneEvent p revision result (record s { world = w })

  with_both-OneEvent :
      (fuel : ℕ) (p : Plan) (revision : Option String) (e : ReconcileExecutor O)
      (desired : List (Manifest Y)) (s : State O)
      (x : Result (List (Manifest Y)) SourceError × O.World)
      → Reports s.bus (with_both fuel r app cluster trigger p revision e desired s x)
  with_both-OneEvent fuel p revision e desired s (err error, w) =
      publish_apply_result-OneEvent p revision _ (record s { world = w })
  with_both-OneEvent fuel p revision e desired s (ok live, w) =
      executed-OneEvent fuel p revision s _

  refetched-OneEvent :
      (fuel : ℕ) (p : Plan) (revision : Option String) (e : ReconcileExecutor O) (s : State O)
      (x : Result (List (Manifest Y)) SourceError × O.World)
      → Reports s.bus (refetched fuel r app cluster trigger p revision e s x)
  refetched-OneEvent fuel p revision e s (err error, w) =
      publish_apply_result-OneEvent p revision _ (record s { world = w })
  refetched-OneEvent fuel p revision e s (ok desired, w) =
      with_both-OneEvent fuel p revision e desired s (O.live w app cluster)

  apply_with-OneEvent :
      (fuel : ℕ) (p : Plan) (revision : Option String) (s : State O)
      (x : Option (ReconcileExecutor O))
      → Reports s.bus (apply_with fuel r app cluster trigger p revision s x)
  apply_with-OneEvent fuel p revision s none = record {
    event = _;
    published = refl;
    names = (refl, refl, refl);
    returned = (refl, refl);
    agrees = unfold success in refl;
    explained = unfold success in refl;
    plan_or_error = λ h. refl;
  }
  apply_with-OneEvent fuel p revision s (some e) =
      refetched-OneEvent fuel p revision e s (O.desired s.world app)

  pub plan_then_apply-OneEvent :
      (fuel : ℕ) (s : State O) (x : Result Plan ReconcileError × O.World)
      → Reports s.bus (plan_then_apply fuel r app cluster trigger s x)
  plan_then_apply-OneEvent fuel s (err error, w) = failure-OneEvent error (record s { world = w })
  plan_then_apply-OneEvent fuel s (ok p, w) =
      apply_with-OneEvent fuel p _ _ (executor_for r cluster)

  -- The fuel that the wave executor needs is enough for the pass.
  abbrev pub Returns : Option (ReconcileOutcome × State O) → Type 0
  Returns x = (o : ReconcileOutcome) × (t : State O) × (x ≡ some (o, t))

  module _ (e : ReconcileExecutor O) (clock : IsClock (cluster_of O e))
      (pos : 0 < e.config.poll_interval) where
    abbrev pub enough : ℕ
    enough = suc (e.config.per_wave_timeout / e.config.poll_interval + 1)

    with_both-Returns :
        (p : Plan) (revision : Option String) (desired : List (Manifest Y)) (s : State O)
        (x : Result (List (Manifest Y)) SourceError × O.World)
        → Returns (with_both enough r app cluster trigger p revision e desired s x)
    with_both-Returns p revision desired s (err error, w) = (_, _, refl)
    with_both-Returns p revision desired s (ok live, w) =
        let ((result, v), h) =
          execute_waves_terminates (cluster_of O e) (group_into_waves p desired live) e.config
            desired live w clock pos in
        (_, _, ap (executed enough r app cluster trigger p revision s) h)

    refetched-Returns :
        (p : Plan) (revision : Option String) (s : State O)
        (x : Result (List (Manifest Y)) SourceError × O.World)
        → Returns (refetched enough r app cluster trigger p revision e s x)
    refetched-Returns p revision s (err error, w) = (_, _, refl)
    refetched-Returns p revision s (ok desired, w) =
        with_both-Returns p revision desired s (O.live w app cluster)

    pub plan_then_apply-Returns :
        executor_for r cluster ≡ some e
        → (s : State O) (x : Result Plan ReconcileError × O.World)
        → Returns (plan_then_apply enough r app cluster trigger s x)
    plan_then_apply-Returns found s (err error, w) = (_, _, refl)
    plan_then_apply-Returns found s (ok p, w) =
        let t = record_plan_changes r (changes p) (record s { world = w }) in
        rw found (refetched-Returns p (O.desired_revision w app) t (O.desired w app))
