-- ===== src/Wave/Exec.antt =====
-- `execute_waves` of crates/synchrotron-reconcile/src/wave.rs. The cluster behind the `Applier` and the
-- `HealthChecker`, and the clock, are the interface Cluster.
pub mod Terminates
pub mod Script
pub mod Follows
pub mod Report
pub mod Samples
use synchrotron.Base.{
  ℕ, zero, suc, ◌+◌, ◌*◌, Bool, not, Option, none, some, List, [], ◌∷◌, ◌++◌, String, if◌then◌else◌,
  leb, filter, is_empty, map,
}
use synchrotron.Base.Int.{ℤ}
use synchrotron.Base.Map.{Map, get}
use synchrotron.Base.Result.{Result, ok, err}
use synchrotron.Health.{HealthStatusCode, healthy, code_beq}
use synchrotron.Manifest.{Yaml, Manifest}
use synchrotron.Plan.Resources.{ResourceRef, ResourceRef_eq}
use synchrotron.Plan.{PlannedAction, apply, delete, noop, PlanEntry, is_action, index}
use synchrotron.Wave.{WaveGroup, WavePlan}

pub record ApplyError : Type 0 where
  pub reason : String

pub record WaveExecConfig : Type 0 where
  pub per_wave_timeout : ℕ
  pub poll_interval : ℕ

-- In microseconds.
abbrev pub default_config : WaveExecConfig
default_config = record { per_wave_timeout = 300 * 1000000; poll_interval = 500 * 1000 }

pub data WaveExecError : Type 0 where
  apply_failed : ℤ → ResourceRef → ApplyError → WaveExecError
  wave_timeout : ℤ → ℕ → HealthStatusCode → WaveExecError

pub record WaveExecReport : Type 0 where
  pub completed_waves : List ℤ

-- What the calls do to the world around the reconciler.
pub record Cluster (Y : Yaml) : Type 1 where
  pub World : Type 0
  pub apply_entry : World → PlanEntry → Option (Manifest Y) → Result (Unit {0}) ApplyError × World
  pub health : World → List ResourceRef → HealthStatusCode × World
  pub now : World → ℕ
  pub sleep : World → ℕ → World

abbrev pub changed : List PlanEntry → List PlanEntry
changed = filter (λ e. not (is_action e.action noop))

abbrev pub resources : List PlanEntry → List ResourceRef
resources = map (λ e. e.resource)

module _ {Y : Yaml} where
  abbrev manifest_by :
      PlannedAction → Option (Manifest Y) → Option (Manifest Y) → Option (Manifest Y)
  manifest_by apply desired live = desired
  manifest_by delete desired live = live
  manifest_by noop desired live = none

  unfoldable pub manifest_for :
      List (Manifest Y) → List (Manifest Y) → PlanEntry → Option (Manifest Y)
  manifest_for desired live e =
      manifest_by e.action (get (index desired) e.resource) (get (index live) e.resource)

  module _ (C : Cluster Y) where
    -- The loop that applies the changed entries; it ends at the first error.
    unfoldable pub apply_all :
        (PlanEntry → Option (Manifest Y))
        → ℤ
        → List PlanEntry
        → C.World
        → Option WaveExecError × C.World
    apply_all manifest wave [] w = (none, w)
    apply_all manifest wave (e ∷ es) w =
        let answer = C.apply_entry w e (manifest e) in
        let rest = apply_all manifest wave es answer.1 in
        elim answer.0 [
          | ok _ ↦ rest
          | err source ↦ (some (apply_failed wave e.resource source), answer.1)
        ]

    -- The polling loop, on fuel: nothing if the fuel is short, the last status on a timeout.
    unfoldable pub poll :
        ℕ
        → List ResourceRef
        → ℕ
        → ℕ
        → C.World
        → Option (Result (Unit {0}) HealthStatusCode × C.World)
    poll zero refs deadline interval w = none
    poll (suc fuel) refs deadline interval w =
        let (status, seen) = C.health w refs in
        let rest = poll fuel refs deadline interval (C.sleep seen interval) in
        if code_beq status healthy
        then some (ok tt, seen)
        else if leb deadline (C.now seen)
        then some (err status, seen)
        else rest

    abbrev pub gate :
        WaveExecConfig
        → ℤ
        → Option (Result (Unit {0}) HealthStatusCode × C.World)
        → Option (Option WaveExecError × C.World)
    gate cfg wave none = none
    gate cfg wave (some (ok _, healed)) = some (none, healed)
    gate cfg wave (some (err status, late)) =
        some (some (wave_timeout wave cfg.per_wave_timeout status), late)

    -- After the applies of a wave: a failure ends the run, a wave without changes is done, any other
    -- waits at the gate.
    unfoldable pub settle :
        ℕ
        → WaveExecConfig
        → WaveGroup
        → Option WaveExecError × C.World
        → Option (Option WaveExecError × C.World)
    unfolding poll
    settle fuel cfg g (some error, applied) = some (some error, applied)
    settle fuel cfg g (none, applied) =
        if is_empty (changed g.entries)
        then some (none, applied)
        else gate cfg g.wave (
            poll fuel (resources (changed g.entries)) (C.now applied + cfg.per_wave_timeout)
              cfg.poll_interval applied)

    unfoldable pub run_wave :
        ℕ
        → (PlanEntry → Option (Manifest Y))
        → WaveExecConfig
        → WaveGroup
        → C.World
        → Option (Option WaveExecError × C.World)
    unfolding apply_all settle
    run_wave fuel manifest cfg g w =
        settle fuel cfg g (apply_all manifest g.wave (changed g.entries) w)

    -- A finished wave is noted and the others follow; an error ends the run.
    abbrev pub advance :
        (WaveExecReport → C.World → Option (Result WaveExecReport WaveExecError × C.World))
        → WaveExecReport
        → ℤ
        → Option (Option WaveExecError × C.World)
        → Option (Result WaveExecReport WaveExecError × C.World)
    advance others report wave none = none
    advance others report wave (some (some error, failed)) = some (err error, failed)
    advance others report wave (some (none, done)) =
        others (record { completed_waves = report.completed_waves ++ wave ∷ [] }) done

    -- The loop over the waves.
    unfoldable pub run_waves :
        ℕ
        → (PlanEntry → Option (Manifest Y))
        → WaveExecConfig
        → List WaveGroup
        → WaveExecReport
        → C.World
        → Option (Result WaveExecReport WaveExecError × C.World)
    unfolding run_wave
    run_waves fuel manifest cfg [] report w = some (ok report, w)
    run_waves fuel manifest cfg (g ∷ gs) report w =
        advance (run_waves fuel manifest cfg gs) report g.wave (run_wave fuel manifest cfg g w)

    unfoldable pub execute_waves :
        ℕ
        → WavePlan
        → WaveExecConfig
        → List (Manifest Y)
        → List (Manifest Y)
        → C.World
        → Option (Result WaveExecReport WaveExecError × C.World)
    unfolding run_waves manifest_for
    execute_waves fuel plan cfg desired live w =
        run_waves fuel (manifest_for desired live) cfg plan.waves (record { completed_waves = [] })
          w
