-- ===== src/Wave/Exec/Samples.antt =====
-- Tests of the wave executor, and its theorems at concrete inputs.
use synchrotron.Base.{ℕ, suc, ◌+◌, ◌/◌, ◌≡◌, refl, none, some, List, [], ◌∷◌, arith}
use synchrotron.Base.Int.{ℤ, pos, negsuc}
use synchrotron.Base.Result.{Result, ok}
use synchrotron.Health.{healthy, progressing}
use synchrotron.Manifest.Samples.{Sample}
use synchrotron.Plan.Resources.{ResourceRef}
use synchrotron.Base.Map.{get}
use synchrotron.Plan.{apply, delete, noop, index, insert_all}
use synchrotron.KindOrder.Samples.{entry}
use synchrotron.Wave.{WavePlan}
use synchrotron.Wave.Exec.{
  WaveExecConfig, WaveExecError, WaveExecReport, Cluster, execute_waves, manifest_for, run_waves,
  run_wave, settle, apply_all, poll,
}
use synchrotron.Wave.Exec.Terminates.{IsClock, execute_waves_terminates}
use synchrotron.Wave.Exec.Script.{Call, applied, checked, traced, Script}
use synchrotron.Wave.Exec.Follows.{reported, execute_waves-Script}

-- A cluster whose clock is its state: resources are healthy from the instant 30 on.
abbrev slow : Cluster Sample
slow = record {
  World = ℕ;
  apply_entry = λ w e m. (ok tt, w + 1);
  health = λ w refs. (
    elim (Prim.Native.Nat.compare w 30) [ Prim.Native.Nat.Ordering.lt ↦ progressing | _ ↦ healthy ],
    w + 1,
  );
  now = λ w. w;
  sleep = λ w d. w + d;
}

abbrev two_waves : WavePlan
two_waves = record {
  waves =
      record { wave = negsuc 0; entries = entry "Namespace" "a" apply ∷ [] }
      ∷ record { wave = pos 0; entries = entry "ConfigMap" "a" noop ∷ [] }
      ∷ record {
        wave = pos 2;
        entries = entry "Deployment" "a" apply ∷ entry "Pod" "old" delete ∷ [];
      }
      ∷ [];
}

abbrev every_ten : WaveExecConfig
every_ten = record { per_wave_timeout = 100; poll_interval = 10 }

slow_run :
    execute_waves slow 20 two_waves every_ten [] [] 0
    ≡ some (ok (record { completed_waves = negsuc 0 ∷ pos 0 ∷ pos 2 ∷ [] }), 38)
unfolding execute_waves run_waves run_wave settle apply_all poll
slow_run = refl

abbrev namespaces : List ResourceRef
namespaces = (entry "Namespace" "a" apply).resource ∷ []

abbrev workloads : List ResourceRef
workloads = (entry "Deployment" "a" apply).resource ∷ (entry "Pod" "old" delete).resource ∷ []

abbrev slow_calls : List (Call Sample)
slow_calls =
    applied (entry "Namespace" "a" apply) none (ok tt)
    ∷ checked namespaces progressing
    ∷ checked namespaces progressing
    ∷ checked namespaces progressing
    ∷ checked namespaces healthy
    ∷ applied (entry "Deployment" "a" apply) none (ok tt)
    ∷ applied (entry "Pod" "old" delete) none (ok tt)
    ∷ checked workloads healthy
    ∷ []

abbrev all_waves : WaveExecReport
all_waves = record { completed_waves = negsuc 0 ∷ pos 0 ∷ pos 2 ∷ [] }

traced_run :
    execute_waves (traced slow) 20 two_waves every_ten [] [] (0, [])
    ≡ some (ok all_waves, (38, slow_calls))
unfolding execute_waves run_waves run_wave settle apply_all poll manifest_for index insert_all get
traced_run = refl

execute_waves-Script_example :
    (out : Result (List ℤ) WaveExecError) × Script
      (manifest_for {Y = Sample} [] [])
      100
      two_waves.waves
      slow_calls
      out
    × (ok all_waves ≡ reported (record { completed_waves = [] }) out)
execute_waves-Script_example =
    execute_waves-Script slow 20 two_waves every_ten [] [] 0 38 slow_calls (ok all_waves) traced_run

slow-IsClock : IsClock slow
slow-IsClock = record { check_takes = λ w refs. omega arith; sleep_takes = λ w d. omega arith }

execute_waves_terminates_example :
    (r : Result WaveExecReport WaveExecError × ℕ) × (execute_waves slow
        (suc (100 / 10 + 1))
        two_waves
        every_ten
        []
        []
        0
      ≡ some r)
execute_waves_terminates_example =
    execute_waves_terminates slow two_waves every_ten [] [] 0 slow-IsClock (omega arith)
