-- ===== src/Wave/Exec/Script.antt =====
-- The calls that `execute_waves` of crates/synchrotron-reconcile/src/wave.rs makes, in their order.
use mathlib.Core.List.{append-nil, append_assoc}
use synchrotron.Base.{
  ℕ, zero, suc, ◌≡◌, ◌≢◌, refl, sym, ap, ◌∙◌, subst, true, false, Option, none, some, List, [], ◌∷◌,
  ◌++◌, leb, if_cases, map, All,
}
use synchrotron.Base.Int.{ℤ}
use synchrotron.Base.Result.{Result, ok, err}
use synchrotron.Health.{HealthStatusCode, healthy, code_beq}
use synchrotron.Manifest.{Yaml, Manifest}
use synchrotron.Plan.Resources.{ResourceRef}
use synchrotron.Plan.{PlanEntry}
use synchrotron.Wave.{WaveGroup}
use synchrotron.Wave.Exec.{
  ApplyError, WaveExecError, apply_failed, wave_timeout, Cluster, changed, resources, apply_all,
  poll,
}

module _ (Y : Yaml) where
  -- A call on the applier or on the health checker, with its answer.
  pub data Call : Type 0 where
    applied : PlanEntry → Option (Manifest Y) → Result (Unit {0}) ApplyError → Call
    checked : List ResourceRef → HealthStatusCode → Call

module _ {Y : Yaml} (C : Cluster Y) where
  -- The same cluster, keeping a log of the calls.
  abbrev pub traced : Cluster Y
  traced = record {
    World = C.World × List (Call Y);
    apply_entry = λ w e m.
        let (answer, after) = C.apply_entry w.0 e m in
        (answer, (after, w.1 ++ applied e m answer ∷ []));
    health = λ w refs.
        let (status, after) = C.health w.0 refs in
        (status, (after, w.1 ++ checked refs status ∷ []));
    now = λ w. C.now w.0;
    sleep = λ w d. (C.sleep w.0 d, w.1);
  }

abbrev pub prepend : ℤ → Result (List ℤ) WaveExecError → Result (List ℤ) WaveExecError
prepend wave (ok waves) = ok (wave ∷ waves)
prepend wave (err e) = err e

module _ {Y : Yaml} (manifest : PlanEntry → Option (Manifest Y)) where
  abbrev pub applied_all : List PlanEntry → List (Call Y)
  applied_all = map (λ e. applied e (manifest e) (ok tt))

module _ {Y : Yaml} (manifest : PlanEntry → Option (Manifest Y)) (timeout : ℕ) where
  -- The calls that the waves may lead to, and the outcome: which waves completed, or the error.
  pub data Script : List WaveGroup → List (Call Y) → Result (List ℤ) WaveExecError → Type 0 where
    finished : Script [] [] (ok [])
    -- no changes: no call at all
    idle :
        (g : WaveGroup) {gs : List WaveGroup} {calls : List (Call Y)}
        {r : Result (List ℤ) WaveExecError}
        → changed g.entries ≡ []
        → Script gs calls r
        → Script (g ∷ gs) calls (prepend g.wave r)
    -- every change applied, then checks of all of them until one says healthy
    passed :
        (g : WaveGroup) {gs : List WaveGroup} {calls : List (Call Y)}
        {r : Result (List ℤ) WaveExecError} (waits : List HealthStatusCode)
        → changed g.entries ≢ []
        → All (λ s. s ≢ healthy) waits
        → Script gs calls r
        → Script
            (g ∷ gs)
            (applied_all manifest (changed g.entries)
              ++ (map (checked (resources (changed g.entries))) waits
                  ++ (checked (resources (changed g.entries)) healthy ∷ calls)))
            (prepend g.wave r)
    -- the first refused apply is the last call
    refused :
        (g : WaveGroup) {gs : List WaveGroup} (before : List PlanEntry) (e : PlanEntry)
        (later : List PlanEntry) (source : ApplyError)
        → changed g.entries ≡ before ++ e ∷ later
        → Script
            (g ∷ gs)
            (applied_all manifest before ++ applied e (manifest e) (err source) ∷ [])
            (err (apply_failed g.wave e.resource source))
    -- never healthy, and the last check is the last call
    expired :
        (g : WaveGroup) {gs : List WaveGroup} (waits : List HealthStatusCode)
        (last : HealthStatusCode)
        → All (λ s. s ≢ healthy) waits
        → last ≢ healthy
        → Script
            (g ∷ gs)
            (applied_all manifest (changed g.entries)
              ++ (map (checked (resources (changed g.entries))) waits
                  ++ checked (resources (changed g.entries)) last ∷ []))
            (err (wave_timeout g.wave timeout last))

code_beq-false : (s : HealthStatusCode) → code_beq s healthy ≡ false → s ≢ healthy
code_beq-false s h e = cc (ap (λ c. code_beq c healthy) e, h)

code_beq_eq : (s : HealthStatusCode) → code_beq s healthy ≡ true → s ≡ healthy
code_beq_eq healthy h = refl
code_beq_eq HealthStatusCode.progressing h = cc h
code_beq_eq HealthStatusCode.suspended h = cc h
code_beq_eq HealthStatusCode.unknown h = cc h
code_beq_eq HealthStatusCode.missing h = cc h
code_beq_eq HealthStatusCode.degraded h = cc h

module _ {Y : Yaml} (C : Cluster Y) (manifest : PlanEntry → Option (Manifest Y)) where
  -- What the applies of a wave leave on the log.
  abbrev pub Applies :
      ℤ → List PlanEntry → List (Call Y) → Option WaveExecError × (C.World × List (Call Y)) → Type 0
  Applies wave es log (none, (w, l)) = l ≡ log ++ applied_all manifest es
  Applies wave es log (some error, (w, l)) =
      (before : List PlanEntry) × (e : PlanEntry) × (later : List PlanEntry) × (source : ApplyError)
      × (es ≡ before ++ e ∷ later)
      × (error ≡ apply_failed wave e.resource source)
      × (l ≡ log ++ (applied_all manifest before ++ applied e (manifest e) (err source) ∷ []))

  applied_first :
      (wave : ℤ) (e : PlanEntry) (es : List PlanEntry) (log : List (Call Y))
      (r : Option WaveExecError × (C.World × List (Call Y)))
      → Applies wave es (log ++ applied e (manifest e) (ok tt) ∷ []) r
      → Applies wave (e ∷ es) log r
  applied_first wave e es log (none, (w, l)) h = h ∙ append_assoc log _ _
  applied_first wave e es log (some error, (w, l)) (before, f, later, source, split, same, h) =
      (e ∷ before, f, later, source, ap (λ x. e ∷ x) split, same, h ∙ append_assoc log _ _)

  pub apply_all-Applies :
      (wave : ℤ) (es : List PlanEntry) (w : C.World) (log : List (Call Y))
      → Applies wave es log (apply_all (traced C) manifest wave es (w, log))
  unfolding apply_all
  apply_all-Applies wave [] w log = sym (append-nil log)
  apply_all-Applies wave (e ∷ es) w log =
      go (C.apply_entry w e (manifest e)).0 (C.apply_entry w e (manifest e)).1 _ refl
        (λ v l. apply_all-Applies wave es v l)
    where
      go :
          (answer : Result (Unit {0}) ApplyError) (v : C.World) (l : List (Call Y))
          → l ≡ log ++ applied e (manifest e) answer ∷ []
          → ((v : C.World) (l : List (Call Y))
              → Applies wave es l (apply_all (traced C) manifest wave es (v, l)))
          → Applies wave (e ∷ es) log (elim answer [
            | ok _ ↦ apply_all (traced C) manifest wave es (v, l)
            | err source ↦ (some (apply_failed wave e.resource source), (v, l))
          ])
      go (ok u) v l h k =
          applied_first wave e es log _ (
            subst (λ m. Applies wave es m (apply_all (traced C) manifest wave es (v, l))) h (k v l))
      go (err source) v l h k = ([], e, es, source, refl, refl, h)

  -- What the polls of a wave leave on the log.
  abbrev pub Polls :
      List ResourceRef
      → List (Call Y)
      → Option (Result (Unit {0}) HealthStatusCode × (C.World × List (Call Y)))
      → Type 0
  Polls refs log none = Unit
  Polls refs log (some (ok u, (w, l))) =
      (waits : List HealthStatusCode) × All (λ s. s ≢ healthy) waits
      × (l ≡ log ++ (map (checked refs) waits ++ checked refs healthy ∷ []))
  Polls refs log (some (err last, (w, l))) =
      (waits : List HealthStatusCode) × All (λ s. s ≢ healthy) waits
      × (last ≢ healthy)
      × (l ≡ log ++ (map (checked refs) waits ++ checked refs last ∷ []))

  polled_again :
      (refs : List ResourceRef) (log : List (Call Y)) (s : HealthStatusCode)
      (o : Option (Result (Unit {0}) HealthStatusCode × (C.World × List (Call Y))))
      → s ≢ healthy
      → Polls refs (log ++ checked refs s ∷ []) o
      → Polls refs log o
  polled_again refs log s none n h = tt
  polled_again refs log s (some (ok u, (w, l))) n (waits, all, h) =
      (s ∷ waits, (n, all), h ∙ append_assoc log _ _)
  polled_again refs log s (some (err last, (w, l))) n (waits, all, m, h) =
      (s ∷ waits, (n, all), m, h ∙ append_assoc log _ _)

  pub poll-Polls :
      (fuel : ℕ) (refs : List ResourceRef) (deadline interval : ℕ) (w : C.World)
      (log : List (Call Y))
      → Polls refs log (poll (traced C) fuel refs deadline interval (w, log))
  unfolding poll
  poll-Polls zero refs deadline interval w log = tt
  poll-Polls (suc fuel) refs deadline interval w log =
      let status = (C.health w refs).0 in
      let seen = (C.health w refs).1 in
      if_cases (Polls refs log) (code_beq status healthy) _ _
        (λ h. ([], tt, ap (λ s. log ++ checked refs s ∷ []) (code_beq_eq status h)))
        λ h.
          if_cases (Polls refs log) (leb deadline (C.now seen)) _ _
            (λ _. ([], tt, code_beq-false status h, refl))
            (λ _. polled_again refs log status _ (code_beq-false status h) (
              poll-Polls fuel refs deadline interval (C.sleep seen interval)
                (log ++ checked refs status ∷ [])))
