-- ===== src/Wave/Exec/Follows.antt =====
-- Every run of `execute_waves` of crates/synchrotron-reconcile/src/wave.rs follows the script.
use mathlib.Core.List.{append-nil, append_assoc}
use synchrotron.Base.{
  ℕ, ◌+◌, ◌≡◌, ◌≢◌, refl, sym, ap, ◌∙◌, subst, true, false, Option, none, some, List, [], ◌∷◌, ◌++◌,
  is_empty, if_cases, map,
}
use synchrotron.Base.Int.{ℤ}
use synchrotron.Base.Result.{Result, ok, err}
use synchrotron.Health.{HealthStatusCode, healthy}
use synchrotron.Manifest.{Yaml, Manifest}
use synchrotron.Plan.{PlanEntry}
use synchrotron.Wave.{WaveGroup, WavePlan}
use synchrotron.Wave.Exec.{
  WaveExecConfig, WaveExecError, WaveExecReport, Cluster, changed, resources, gate, settle, advance,
  run_wave, run_waves, execute_waves, manifest_for,
}
use synchrotron.Wave.Exec.Script.{
  Call, applied, checked, traced, prepend, applied_all, Script, finished, idle, passed, refused,
  expired, Applies, apply_all-Applies, Polls, poll-Polls,
}

empty_list : {A : Type 0} (l : List A) → is_empty l ≡ true → l ≡ []
empty_list [] h = refl
empty_list (x ∷ l) h = cc h

nonempty_list : {A : Type 0} (l : List A) → is_empty l ≡ false → l ≢ []
nonempty_list [] h e = cc h
nonempty_list (x ∷ l) h e = cc e

appended :
    {A : Type 0} {middle end : List A} (start taken added : List A)
    → end ≡ middle ++ added
    → middle ≡ start ++ taken
    → end ≡ start ++ (taken ++ added)
appended start taken added e h = e ∙ ap (λ x. x ++ added) h ∙ append_assoc start taken added

module _ {Y : Yaml} (C : Cluster Y) (manifest : PlanEntry → Option (Manifest Y))
    (cfg : WaveExecConfig) where
  -- A wave that is done continues any script of the later waves; one that failed ends it.
  abbrev Settled :
      WaveGroup → List (Call Y) → Option (Option WaveExecError × (C.World × List (Call Y))) → Type 0
  Settled g log none = Unit
  Settled g log (some (none, (w, l))) =
      (calls : List (Call Y)) × (l ≡ log ++ calls)
      × ((gs : List WaveGroup) (cs : List (Call Y)) (r : Result (List ℤ) WaveExecError)
          → Script manifest cfg.per_wave_timeout gs cs r
          → Script manifest cfg.per_wave_timeout (g ∷ gs) (calls ++ cs) (prepend g.wave r))
  Settled g log (some (some error, (w, l))) =
      (calls : List (Call Y)) × (l ≡ log ++ calls)
      × ((gs : List WaveGroup) → Script manifest cfg.per_wave_timeout (g ∷ gs) calls (err error))

  gate-Settled :
      (g : WaveGroup) (log l : List (Call Y))
      (o : Option (Result (Unit {0}) HealthStatusCode × (C.World × List (Call Y))))
      → changed g.entries ≢ []
      → l ≡ log ++ applied_all manifest (changed g.entries)
      → Polls C manifest (resources (changed g.entries)) l o
      → Settled g log (gate (traced C) cfg g.wave o)
  gate-Settled g log l none n h p = tt
  gate-Settled g log l (some (ok u, (w, m))) n h (waits, all, e) = (
    applied_all manifest (changed g.entries)
        ++ (map (checked (resources (changed g.entries))) waits
            ++ checked (resources (changed g.entries)) healthy ∷ []),
    appended log _ _ e h,
    λ gs cs r s.
        subst (λ x. Script manifest cfg.per_wave_timeout (g ∷ gs) x (prepend g.wave r))
          (ap (λ x. applied_all manifest (changed g.entries) ++ x)
              (sym (append_assoc (map (checked (resources (changed g.entries))) waits) _ cs))
            ∙ sym (append_assoc (applied_all manifest (changed g.entries)) _ cs))
          (passed g waits n all s),
  )
  gate-Settled g log l (some (err last, (w, m))) n h (waits, all, k, e) = (
    applied_all manifest (changed g.entries)
        ++ (map (checked (resources (changed g.entries))) waits
            ++ checked (resources (changed g.entries)) last ∷ []),
    appended log _ _ e h,
    λ gs. expired g waits last all k,
  )

  settle-Settled :
      (fuel : ℕ) (g : WaveGroup) (log : List (Call Y))
      (r : Option WaveExecError × (C.World × List (Call Y)))
      → Applies C manifest g.wave (changed g.entries) log r
      → Settled g log (settle (traced C) fuel cfg g r)
  unfolding settle
  settle-Settled fuel g log (some error, (w, l)) (before, e, later, source, split, same, h) = (
    applied_all manifest before ++ applied e (manifest e) (err source) ∷ [],
    h,
    λ gs.
        subst
          (λ x.
            Script manifest cfg.per_wave_timeout (g ∷ gs)
              (applied_all manifest before ++ applied e (manifest e) (err source) ∷ []) (err x))
          (sym same) (refused g before e later source split),
  )
  settle-Settled fuel g log (none, (w, l)) h =
      if_cases (Settled g log) (is_empty (changed g.entries)) _ _
        (λ none_changed.
          let e = empty_list (changed g.entries) none_changed in
          ([], h ∙ ap (λ es. log ++ applied_all manifest es) e, λ gs cs r s. idle g e s))
        (λ some_changed. gate-Settled g log l _ (nonempty_list (changed g.entries) some_changed) h (
          poll-Polls C manifest fuel (resources (changed g.entries))
            (C.now w + cfg.per_wave_timeout) cfg.poll_interval w l))

abbrev pub reported :
    WaveExecReport → Result (List ℤ) WaveExecError → Result WaveExecReport WaveExecError
reported report (ok waves) = ok (record { completed_waves = report.completed_waves ++ waves })
reported report (err e) = err e

reported_next :
    (report : WaveExecReport) (wave : ℤ) (r : Result (List ℤ) WaveExecError)
    → reported (record { completed_waves = report.completed_waves ++ wave ∷ [] }) r
      ≡ reported report (prepend wave r)
reported_next report wave (ok waves) =
    ap (λ l. ok (record { completed_waves = l }))
      (append_assoc report.completed_waves (wave ∷ []) waves)
reported_next report wave (err e) = refl

module _ {Y : Yaml} (C : Cluster Y) (manifest : PlanEntry → Option (Manifest Y))
    (cfg : WaveExecConfig) (fuel : ℕ) where
  abbrev Runs :
      List WaveGroup
      → WaveExecReport
      → List (Call Y)
      → Option (Result WaveExecReport WaveExecError × (C.World × List (Call Y)))
      → Type 0
  Runs gs report log none = Unit
  Runs gs report log (some (r, (w, l))) =
      (calls : List (Call Y)) × (out : Result (List ℤ) WaveExecError) × (l ≡ log ++ calls)
      × Script manifest cfg.per_wave_timeout gs calls out
      × (r ≡ reported report out)

  advance-Runs :
      (g : WaveGroup) (gs : List WaveGroup) (report : WaveExecReport) (log : List (Call Y))
      (o : Option (Option WaveExecError × (C.World × List (Call Y))))
      → ((report : WaveExecReport) (w : C.World) (l : List (Call Y))
          → Runs gs report l (run_waves (traced C) fuel manifest cfg gs report (w, l)))
      → Settled C manifest cfg g log o
      → Runs
          (g ∷ gs)
          report
          log
          (advance (traced C) (run_waves (traced C) fuel manifest cfg gs) report g.wave o)
  advance-Runs g gs report log none k s = tt
  advance-Runs g gs report log (some (some error, (w, l))) k (calls, h, s) =
      (calls, err error, h, s gs, refl)
  advance-Runs g gs report log (some (none, (w, l))) k (calls, h, s) =
      joined _ (k (record { completed_waves = report.completed_waves ++ g.wave ∷ [] }) w l)
    where
      joined :
          (o : Option (Result WaveExecReport WaveExecError × (C.World × List (Call Y))))
          → Runs gs (record { completed_waves = report.completed_waves ++ g.wave ∷ [] }) l o
          → Runs (g ∷ gs) report log o
      joined none n = tt
      joined (some (r, (v, m))) (cs, out, e, rest, same) = (
        calls ++ cs,
        prepend g.wave out,
        appended log _ _ e h,
        s gs cs out rest,
        same ∙ reported_next report g.wave out,
      )

  run_waves-Runs :
      (gs : List WaveGroup) (report : WaveExecReport) (w : C.World) (log : List (Call Y))
      → Runs gs report log (run_waves (traced C) fuel manifest cfg gs report (w, log))
  unfolding run_waves run_wave
  run_waves-Runs [] report w log = (
    [],
    ok [],
    sym (append-nil log),
    finished,
    ap (λ l. ok (record { completed_waves = l })) (sym (append-nil report.completed_waves)),
  )
  run_waves-Runs (g ∷ gs) report w log =
      advance-Runs g gs report log _ (λ r v l. run_waves-Runs gs r v l)
        (settle-Settled C manifest cfg fuel g log _
          (apply_all-Applies C manifest g.wave (changed g.entries) w log))

-- The calls of a run that returns are one of the scripts of the plan, and its answer is the outcome of
-- that script. So the waves go in order; in each the changed entries are applied one after the
-- other until one is refused; the next wave begins only after a check of exactly the changed
-- resources said healthy; after a refusal or a timeout nothing more is called; and a wave without
-- changes makes no call.
pub execute_waves-Script :
    {Y : Yaml} (C : Cluster Y) (fuel : ℕ) (plan : WavePlan) (cfg : WaveExecConfig)
    (desired live : List (Manifest Y)) (w v : C.World) (calls : List (Call Y))
    (r : Result WaveExecReport WaveExecError)
    → execute_waves (traced C) fuel plan cfg desired live (w, []) ≡ some (r, (v, calls))
    → (out : Result (List ℤ) WaveExecError) × Script
        (manifest_for desired live)
        cfg.per_wave_timeout
        plan.waves
        calls
        out
      × (r ≡ reported (record { completed_waves = [] }) out)
unfolding execute_waves
execute_waves-Script C fuel plan cfg desired live w v calls r h =
    let (cs, out, same, script, answer) =
      subst
        (Runs C (manifest_for desired live) cfg fuel plan.waves (record { completed_waves = [] })
          [])
        h
        (run_waves-Runs C (manifest_for desired live) cfg fuel plan.waves
          (record { completed_waves = [] }) w []) in
    (
      out,
      subst (λ x. Script (manifest_for desired live) cfg.per_wave_timeout plan.waves x out)
          (sym same) script,
      answer,
    )
