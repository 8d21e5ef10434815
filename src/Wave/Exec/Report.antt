-- ===== src/Wave/Exec/Report.antt =====
-- The report of a successful run of `execute_waves`, crates/synchrotron-reconcile/src/wave.rs.
use synchrotron.Base.{ℕ, ◌≡◌, refl, ap, ◌∙◌, Option, some, List, [], ◌∷◌, map}
use synchrotron.Base.Int.{ℤ}
use synchrotron.Base.Result.{Result, ok, err}
use synchrotron.Manifest.{Yaml, Manifest}
use synchrotron.Plan.{PlanEntry}
use synchrotron.Wave.{WaveGroup, WavePlan}
use synchrotron.Wave.Exec.{
  WaveExecConfig, WaveExecError, WaveExecReport, Cluster, execute_waves, manifest_for,
}
use synchrotron.Wave.Exec.Script.{
  Call, traced, prepend, Script, finished, idle, passed, refused, expired,
}
use synchrotron.Wave.Exec.Follows.{reported, execute_waves-Script}

abbrev AllDone : List WaveGroup → Result (List ℤ) WaveExecError → Type 0
AllDone gs (ok waves) = waves ≡ map (λ g. g.wave) gs
AllDone gs (err e) = Unit

prepend-AllDone :
    (g : WaveGroup) (gs : List WaveGroup) (r : Result (List ℤ) WaveExecError)
    → AllDone gs r
    → AllDone (g ∷ gs) (prepend g.wave r)
prepend-AllDone g gs (ok waves) h = ap (λ l. g.wave ∷ l) h
prepend-AllDone g gs (err e) h = tt

Script-AllDone :
    {Y : Yaml} (manifest : PlanEntry → Option (Manifest Y)) (timeout : ℕ) {gs : List WaveGroup}
    {calls : List (Call Y)} {out : Result (List ℤ) WaveExecError}
    → Script manifest timeout gs calls out
    → AllDone gs out
Script-AllDone manifest timeout finished = refl
Script-AllDone manifest timeout (idle g none_changed s) =
    prepend-AllDone g _ _ (Script-AllDone manifest timeout s)
Script-AllDone manifest timeout (passed g waits n all s) =
    prepend-AllDone g _ _ (Script-AllDone manifest timeout s)
Script-AllDone manifest timeout (refused g before e later source split) = tt
Script-AllDone manifest timeout (expired g waits last all n) = tt

ok_inj :
    {x y : WaveExecReport} → ◌≡◌ {A = Result WaveExecReport WaveExecError} (ok x) (ok y) → x ≡ y
ok_inj e = cc e

-- A run that succeeds reports every wave of the plan, in order.
pub execute_waves_reports_all :
    {Y : Yaml} (C : Cluster Y) (fuel : ℕ) (plan : WavePlan) (cfg : WaveExecConfig)
    (desired live : List (Manifest Y)) (w v : C.World) (calls : List (Call Y))
    (report : WaveExecReport)
    → execute_waves (traced C) fuel plan cfg desired live (w, []) ≡ some (ok report, (v, calls))
    → report.completed_waves ≡ map (λ g. g.wave) plan.waves
execute_waves_reports_all C fuel plan cfg desired live w v calls report h =
    let (out, script, same) =
      execute_waves-Script C fuel plan cfg desired live w v calls (ok report) h in
    go out same (Script-AllDone (manifest_for desired live) cfg.per_wave_timeout script)
  where
    go :
        (out : Result (List ℤ) WaveExecError)
        → ok report ≡ reported (record { completed_waves = [] }) out
        → AllDone plan.waves out
        → report.completed_waves ≡ map (λ g. g.wave) plan.waves
    go (ok waves) e d = ap (λ (x : WaveExecReport). x.completed_waves) (ok_inj e) ∙ d
    go (err error) e d = cc e
