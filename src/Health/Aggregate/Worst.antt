-- ===== src/Health/Aggregate/Worst.antt =====
-- What the aggregate of crates/synchrotron-health/src/aggregate.rs says of its resources.
use mathlib.Core.List.{append-nil, append_assoc}
use synchrotron.Base.{
  ℕ, ◌≤◌, ◌<◌, ◌≡◌, refl, ap, subst, Option, none, List, [], ◌∷◌, ◌++◌, String, arith, leb, leb→le,
  map, All, append-All, All-imp, if_cases,
}
use synchrotron.Health.{HealthStatusCode, severity}
use synchrotron.Health.Assess.{assess}
use synchrotron.Manifest.{Yaml, Manifest}
use synchrotron.Plan.Resources.{of}
use synchrotron.Health.Aggregate.{ResourceHealth, max_from, aggregate}

-- From the best to the worst status
abbrev badness : HealthStatusCode → ℕ
badness HealthStatusCode.healthy = 0
badness HealthStatusCode.progressing = 1
badness HealthStatusCode.suspended = 2
badness HealthStatusCode.unknown = 3
badness HealthStatusCode.missing = 4
badness HealthStatusCode.degraded = 5

badness-severity : (s : HealthStatusCode) → severity s ≡ badness s
badness-severity HealthStatusCode.healthy = refl
badness-severity HealthStatusCode.progressing = refl
badness-severity HealthStatusCode.suspended = refl
badness-severity HealthStatusCode.unknown = refl
badness-severity HealthStatusCode.missing = refl
badness-severity HealthStatusCode.degraded = refl

abbrev rank : ResourceHealth → ℕ
rank r = badness r.assessment.status

-- The last of the worst: those before are not worse, those after are better.
pub record LastWorst (rs : List ResourceHealth) (status : HealthStatusCode)
    (message : Option String) : Type 0 where
  pub before : List ResourceHealth
  pub at : ResourceHealth
  pub later : List ResourceHealth
  pub split : rs ≡ before ++ at ∷ later
  pub same_status : status ≡ at.assessment.status
  pub same_message : message ≡ at.assessment.message
  pub not_worse : All (λ r. rank r ≤ rank at) before
  pub better : All (λ r. rank r < rank at) later

passed :
    (before : List ResourceHealth) (at : ResourceHealth) (since : List ResourceHealth)
    (r : ResourceHealth)
    → rank at ≤ rank r
    → All (λ x. rank x ≤ rank at) before
    → All (λ x. rank x < rank at) since
    → All (λ x. rank x ≤ rank r) (before ++ at ∷ since)
passed before at since r h p q =
    append-All _ before (at ∷ since) (All-imp _ (λ x k. omega (arith, h, k)) before p)
      (h, All-imp _ (λ x k. omega (arith, h, k)) since q)

-- The scan so far: `at` with what stands before it, and better ones seen since.
max_from-LastWorst :
    (before : List ResourceHealth) (at : ResourceHealth) (since todo : List ResourceHealth)
    → All (λ r. rank r ≤ rank at) before
    → All (λ r. rank r < rank at) since
    → let a = max_from at.assessment todo in
      LastWorst (before ++ at ∷ (since ++ todo)) a.status a.message
unfolding max_from
max_from-LastWorst before at since [] p q = record {
  before = before;
  at = at;
  later = since;
  split = ap (λ l. before ++ at ∷ l) (append-nil since);
  same_status = refl;
  same_message = refl;
  not_worse = p;
  better = q;
}
max_from-LastWorst before at since (r ∷ todo) p q =
    if_cases
      (λ a.
        LastWorst (before ++ at ∷ (since ++ r ∷ todo)) (max_from a todo).status
          (max_from a todo).message)
      (leb (severity at.assessment.status) (severity r.assessment.status)) r.assessment
      at.assessment
      (λ h.
        subst
          (λ l.
            LastWorst l (max_from r.assessment todo).status (max_from r.assessment todo).message)
          (append_assoc before (at ∷ since) (r ∷ todo))
          (max_from-LastWorst (before ++ at ∷ since) r [] todo
            (passed before at since r
              (omega (
                arith,
                leb→le _ _ h,
                badness-severity at.assessment.status,
                badness-severity r.assessment.status,
              ))
              p q)
            tt))
      (λ h.
        subst
          (λ l.
            LastWorst l (max_from at.assessment todo).status (max_from at.assessment todo).message)
          (ap (λ l. before ++ at ∷ l) (append_assoc since (r ∷ []) todo))
          (max_from-LastWorst before at (since ++ r ∷ []) todo p (
            append-All _ since (r ∷ []) q (
              ground (
                arith,
                h,
                badness-severity at.assessment.status,
                badness-severity r.assessment.status,
              ),
              tt,
            ))))

-- The status and the message of an app are those of the last of its worst resources, by the order healthy,
-- progressing, suspended, unknown, missing, degraded; of no resources the app is healthy, without a message.
pub aggregate-LastWorst :
    {Y : Yaml} (m : Manifest Y) (ms : List (Manifest Y))
    → let h = aggregate (m ∷ ms) in
      LastWorst h.resources h.status h.message
      × (h.resources ≡ map (λ m. record { resource = of m; assessment = assess m }) (m ∷ ms))
      × ((aggregate {Y = Y} []).status ≡ HealthStatusCode.healthy)
      × ((aggregate {Y = Y} []).message ≡ none)
unfolding aggregate
aggregate-LastWorst m ms = (
  max_from-LastWorst [] (record { resource = of m; assessment = assess m }) [] _ tt tt,
  refl,
  refl,
  refl,
)
