-- ===== src/Wave/Exec/Terminates.antt =====
-- The fuel that `execute_waves` of crates/synchrotron-reconcile/src/wave.rs needs.
use native.Mathlib.Nat.{lt-div-mul-add}
use synchrotron.Base.{
  ℕ, zero, suc, ◌+◌, ◌*◌, ◌/◌, ◌≤◌, ◌<◌, ◌≡◌, refl, Option, none, some, List, [], ◌∷◌, arith, leb,
  is_empty, if_cases,
}
use synchrotron.Base.Int.{ℤ}
use synchrotron.Base.Result.{Result, ok, err}
use synchrotron.Health.{HealthStatusCode, healthy, code_beq}
use synchrotron.Manifest.{Yaml, Manifest}
use synchrotron.Plan.Resources.{ResourceRef}
use synchrotron.Plan.{PlanEntry}
use synchrotron.Wave.{WaveGroup, WavePlan}
use synchrotron.Wave.Exec.{
  WaveExecConfig, WaveExecError, WaveExecReport, Cluster, changed, resources, apply_all, poll, gate,
  settle, advance, run_wave, run_waves, execute_waves, manifest_for,
}

abbrev Answers {ℓ} : {A : Type ℓ} → Option A → Type 0
Answers none = ⊥
Answers (some a) = Unit

-- The clock does not run backwards during a health check, and a sleep takes its time at least.
pub record IsClock {Y : Yaml} (C : Cluster Y) : Type 0 where
  pub check_takes : (w : C.World) (refs : List ResourceRef) → C.now w ≤ C.now (C.health w refs).1
  pub sleep_takes : (w : C.World) (d : ℕ) → C.now w + d ≤ C.now (C.sleep w d)

module _ {Y : Yaml} (C : Cluster Y) (clock : IsClock C) where
  poll-Answers :
      (rounds : ℕ) (refs : List ResourceRef) (deadline interval : ℕ) (w : C.World)
      → deadline ≤ C.now w + rounds * interval
      → Answers (poll C (suc rounds) refs deadline interval w)
  unfolding poll
  poll-Answers zero refs deadline interval w h =
      if_cases Answers (code_beq (C.health w refs).0 healthy) _ _ (λ _. tt)
        λ _.
          if_cases Answers (leb deadline (C.now (C.health w refs).1)) _ _ (λ _. tt)
            (λ early. absurd (ground (arith, early, clock.check_takes w refs, h)))
  poll-Answers (suc rounds) refs deadline interval w h =
      if_cases Answers (code_beq (C.health w refs).0 healthy) _ _ (λ _. tt)
        λ _.
          if_cases Answers (leb deadline (C.now (C.health w refs).1)) _ _ (λ _. tt)
            (λ _.
              poll-Answers rounds refs deadline interval (C.sleep (C.health w refs).1 interval)
                later)
    where
      later : deadline ≤ C.now (C.sleep (C.health w refs).1 interval) + rounds * interval
      later =
          grind (arith, clock.check_takes w refs, clock.sleep_takes (C.health w refs).1 interval, h)

  gate-Answers :
      (cfg : WaveExecConfig) (wave : ℤ) (o : Option (Result (Unit {0}) HealthStatusCode × C.World))
      → Answers o
      → Answers (gate C cfg wave o)
  gate-Answers cfg wave none h = h
  gate-Answers cfg wave (some (ok u, w)) h = tt
  gate-Answers cfg wave (some (err status, w)) h = tt

  advance-Answers :
      (others : WaveExecReport → C.World → Option (Result WaveExecReport WaveExecError × C.World))
      (report : WaveExecReport) (wave : ℤ) (o : Option (Option WaveExecError × C.World))
      → ((r : WaveExecReport) (w : C.World) → Answers (others r w))
      → Answers o
      → Answers (advance C others report wave o)
  advance-Answers others report wave none k h = h
  advance-Answers others report wave (some (some error, failed)) k h = tt
  advance-Answers others report wave (some (none, done)) k h = k _ done

  module _ (cfg : WaveExecConfig) (rounds : ℕ)
      (enough : cfg.per_wave_timeout ≤ rounds * cfg.poll_interval) where
    settle-Answers :
        (g : WaveGroup) (r : Option WaveExecError × C.World)
        → Answers (settle C (suc rounds) cfg g r)
    unfolding settle
    settle-Answers g (some error, w) = tt
    settle-Answers g (none, w) =
        if_cases Answers (is_empty (changed g.entries)) _ _ (λ _. tt)
          (λ _. gate-Answers cfg g.wave _ (
            poll-Answers rounds (resources (changed g.entries)) (C.now w + cfg.per_wave_timeout)
              cfg.poll_interval w (omega arith)))

    run_waves-Answers :
        (manifest : PlanEntry → Option (Manifest Y)) (gs : List WaveGroup) (report : WaveExecReport)
        (w : C.World)
        → Answers (run_waves C (suc rounds) manifest cfg gs report w)
    unfolding run_waves run_wave
    run_waves-Answers manifest [] report w = tt
    run_waves-Answers manifest (g ∷ gs) report w =
        advance-Answers (run_waves C (suc rounds) manifest cfg gs) report g.wave
          (settle C (suc rounds) cfg g (apply_all C manifest g.wave (changed g.entries) w))
          (λ r v. run_waves-Answers manifest gs r v)
          (settle-Answers g (apply_all C manifest g.wave (changed g.entries) w))

found {ℓ} : {A : Type ℓ} (o : Option A) → Answers o → (a : A) × (o ≡ some a)
found none h = absurd h
found (some a) h = (a, refl)

-- With a clock that does not run backwards and a positive poll interval, a run over any waves
-- ends, whatever the cluster answers: the fuel `timeout / interval + 2` is enough for the polls of
-- each wave.
pub execute_waves_terminates :
    {Y : Yaml} (C : Cluster Y) (plan : WavePlan) (cfg : WaveExecConfig)
    (desired live : List (Manifest Y)) (w : C.World)
    → IsClock C
    → 0 < cfg.poll_interval
    → (r : Result WaveExecReport WaveExecError × C.World) × (execute_waves C
          (suc (cfg.per_wave_timeout / cfg.poll_interval + 1))
          plan
          cfg
          desired
          live
          w
        ≡ some r)
unfolding execute_waves
execute_waves_terminates C plan cfg desired live w clock pos = found _ (
    run_waves-Answers C clock cfg (cfg.per_wave_timeout / cfg.poll_interval + 1)
      (grind (arith, lt-div-mul-add {a = cfg.per_wave_timeout} pos)) (manifest_for desired live)
      plan.waves (record { completed_waves = [] }) w)
