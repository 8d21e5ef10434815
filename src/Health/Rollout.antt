-- ===== src/Health/Rollout.antt =====
-- What an assessment may say, crates/synchrotron-health/src/lib.rs.
use text.Mathlib.TextEquality.{eq_iff}
use synchrotron.Base.{
  ◌≡◌, ◌≢◌, ◌↔◌, ◌⊎◌, ◌∙◌, inl, inr, refl, sym, ap, subst, true, false, Option, none, some, List,
  [], ◌∷◌, String, PartialEq, ◌==◌, String_eq, Option_eq, arith, if_cases, if◌then◌else◌,
  Bool-cases,
}
use synchrotron.Base.Equality.{Bool_eq}
use synchrotron.Base.Int.{ℤ, pos, ltb_ℤ, ℤ_eq}
use synchrotron.Base.Options.{and_then, or_else, unwrap_or}
use synchrotron.Manifest.{Yaml, Manifest}
use synchrotron.Health.{HealthStatusCode}
use synchrotron.Health.Conditions.{
  HealthAssessment, unknown, status_of, spec_of, drifted, generation_drift, find, find_condition,
  condition_status, condition_reason, i64_field, text_field,
}
use synchrotron.Health.Kinds.{
  flag, desired_replicas, deadline_exceeded, deployment_rollout, deployment_status,
  assess_deployment, containers_ready, pod_status, assess_pod,
}
use synchrotron.Health.Assess.{assess_tier1, assess_by_conditions, assess, assess_with_overrides}

-- Every test on the way to the last answer comes out right.
record Passes (Y : Yaml) (body : Y.Value) : Type 0 where
  running : flag Y (spec_of Y body) "paused" ≡ false
  observed : generation_drift Y body ≡ false
  status : Y.Value
  reported : status_of Y body ≡ some status
  in_time : deadline_exceeded Y (find_condition Y status "Progressing") ≡ false
  updated : ltb_ℤ (i64_field Y status "updatedReplicas") (desired_replicas Y body) ≡ false
  old_gone : ltb_ℤ (i64_field Y status "updatedReplicas") (i64_field Y status "replicas") ≡ false
  available :
      ltb_ℤ (i64_field Y status "availableReplicas") (i64_field Y status "updatedReplicas") ≡ false

module _ (Y : Yaml) (body : Y.Value) where
  rolled_out :
      (o : Option Y.Value)
      → status_of Y body ≡ o
      → flag Y (spec_of Y body) "paused" ≡ false
      → generation_drift Y body ≡ false
      → (deployment_status Y body o).status ≡ HealthStatusCode.healthy
      → Passes Y body
  unfolding deployment_rollout
  rolled_out none e p g h = cc h
  rolled_out (some status) e p g h = record {
    running = p;
    observed = g;
    status = status;
    reported = e;
    in_time = ground (arith, h);
    updated = ground (arith, h);
    old_gone = ground (arith, h);
    available = ground (arith, h);
  }

assess_deployment-Passes :
    (Y : Yaml) (body : Y.Value)
    → ((assess_deployment Y body).status ≡ HealthStatusCode.healthy) ↔ Passes Y body
unfolding assess_deployment deployment_rollout
assess_deployment-Passes Y body = (
  λ h.
      if_cases (λ (a : HealthAssessment). a.status ≡ HealthStatusCode.healthy → Passes Y body)
        (flag Y (spec_of Y body) "paused") _ _ (λ _ e. cc e)
        (λ p.
          if_cases (λ (a : HealthAssessment). a.status ≡ HealthStatusCode.healthy → Passes Y body)
            (generation_drift Y body) _ _ (λ _ e. cc e)
            (λ g. rolled_out Y body (status_of Y body) refl p g))
        h,
  λ (r : Passes Y body).
      rw (r.running, r.observed, r.reported, r.in_time, r.updated, r.old_gone, r.available) refl,
)

-- `metadata.generation` and the like: a field of an object that is itself a field
abbrev inner : (Y : Yaml) → Y.Value → String → String → Option Y.Value
inner Y body outer key = and_then (Y.get body outer) (λ v. Y.get v key)

-- A number of the status, 0 where there is none
abbrev number : (Y : Yaml) → Y.Value → String → ℤ
number Y status key = unwrap_or (pos 0) (and_then (Y.get status key) Y.as_i64)

-- The first condition that is named Progressing
abbrev progressing_of : (Y : Yaml) → List Y.Value → Option Y.Value
progressing_of Y [] = none
progressing_of Y (c ∷ conditions) =
    let later = progressing_of Y conditions in
    if and_then (Y.get c "type") Y.as_str == some "Progressing" then some c else later

-- The rollout of a deployment is over: it is not paused, the controller saw the generation of the spec if
-- there is one, its Progressing condition does not say that the deadline was exceeded, as many replicas
-- as wanted (1 by default) are updated, no other replica is left, and all updated ones are available.
pub record RolledOut (Y : Yaml) (body : Y.Value) : Type 0 where
  pub running : and_then (inner Y body "spec" "paused") Y.as_bool ≢ some true
  pub observed :
      (generation : ℤ)
      → and_then (inner Y body "metadata" "generation") Y.as_i64 ≡ some generation
      → and_then (inner Y body "status" "observedGeneration") Y.as_i64 ≡ some generation
  pub status : Y.Value
  pub reported : Y.get body "status" ≡ some status
  pub in_time :
      (c : Y.Value)
      → and_then (and_then (Y.get status "conditions") Y.as_sequence) (progressing_of Y) ≡ some c
      → and_then (Y.get c "status") Y.as_str ≡ some "False"
      → and_then (Y.get c "reason") Y.as_str ≢ some "ProgressDeadlineExceeded"
  pub updated :
      ltb_ℤ
        (number Y status "updatedReplicas")
        (unwrap_or (pos 1) (and_then (inner Y body "spec" "replicas") Y.as_i64))
      ≡ false
  pub old_gone : ltb_ℤ (number Y status "updatedReplicas") (number Y status "replicas") ≡ false
  pub available :
      ltb_ℤ (number Y status "availableReplicas") (number Y status "updatedReplicas") ≡ false

beq_false : {A : Type 0} ⦃e : PartialEq A⦄ (a b : A) → (a == b) ≡ false → a ≢ b
beq_false ⦃e⦄ a b h k = ground (arith, (e.decides a b).1 k)

false_beq : {A : Type 0} ⦃e : PartialEq A⦄ (a b : A) → a ≢ b → (a == b) ≡ false
false_beq ⦃e⦄ a b n = elim (Bool-cases (a == b)) [
  | inl h ↦ absurd (n ((e.decides a b).0 h))
  | inr h ↦ h
]

module _ (Y : Yaml) (body : Y.Value) where
  same_generation : (o s : Option ℤ) → (drifted Y o s ≡ false) ↔ ((g : ℤ) → o ≡ some g → s ≡ some g)
  same_generation none s = (λ h g e. cc e, λ h. refl)
  same_generation (some g) none = (λ h. cc h, λ h. let e = h g refl in cc e)
  same_generation (some g) (some o) = (
    λ h g' e. ap some (sym ((ℤ_eq.decides g o).0 (ground (arith, h)))) ∙ e,
    λ h. let same : o ≡ g = cc (h g refl) in ground (arith, (ℤ_eq.decides g o).1 (sym same)),
  )

  find-progressing :
      (conditions : List Y.Value)
      → find (λ c. text_field Y c "type" == some "Progressing") conditions
        ≡ progressing_of Y conditions
  find-progressing [] = refl
  find-progressing (c ∷ conditions) =
      ap (λ later. if text_field Y c "type" == some "Progressing" then some c else later)
        (find-progressing conditions)

  found-progressing :
      (o : Option (List Y.Value))
      → and_then o (find (λ c. text_field Y c "type" == some "Progressing"))
        ≡ and_then o (progressing_of Y)
  found-progressing none = refl
  found-progressing (some conditions) = find-progressing conditions

  not_exceeded :
      (o : Option Y.Value)
      → (deadline_exceeded Y o ≡ false) ↔ (
          (c : Y.Value)
          → o ≡ some c
          → and_then (Y.get c "status") Y.as_str ≡ some "False"
          → and_then (Y.get c "reason") Y.as_str ≢ some "ProgressDeadlineExceeded")
  not_exceeded none = (λ h c e. cc e, λ h. refl)
  not_exceeded (some cond) = (
    λ h c e f r.
        let said : deadline_exceeded Y (some cond) ≡ true =
          subst (λ o. deadline_exceeded Y o ≡ true) (sym e) (rw (f, r) refl) in
        cc,
    λ h. elim (Bool-cases (condition_status Y cond == some "False")) [
      | inl f ↦ rw f (
          false_beq (condition_reason Y cond) (some "ProgressDeadlineExceeded")
            (h cond refl ((Option_eq.decides (condition_status Y cond) (some "False")).0 f)))
      | inr f ↦ rw f refl
    ],
  )

  Passes-RolledOut : Passes Y body ↔ RolledOut Y body
  unfolding generation_drift find_condition
  Passes-RolledOut = (
    λ r. record {
      running = beq_false _ _ r.running;
      observed = (same_generation _ _).0 r.observed;
      status = r.status;
      reported = r.reported;
      in_time = (not_exceeded _).0 (
          subst (λ o. deadline_exceeded Y o ≡ false)
            (found-progressing (and_then (Y.get r.status "conditions") Y.as_sequence)) r.in_time);
      updated = r.updated;
      old_gone = r.old_gone;
      available = r.available;
    },
    λ r. record {
      running = false_beq _ _ r.running;
      observed = (same_generation _ _).1 r.observed;
      status = r.status;
      reported = r.reported;
      in_time =
          subst (λ o. deadline_exceeded Y o ≡ false)
            (sym (found-progressing (and_then (Y.get r.status "conditions") Y.as_sequence)))
            ((not_exceeded _).1 r.in_time);
      updated = r.updated;
      old_gone = r.old_gone;
      available = r.available;
    },
  )

-- A deployment is reported healthy if and only if its rollout is over: it is not paused, the generation of
-- its spec, if it has one, is the observed one, the deadline was not exceeded, and the replicas that are
-- wanted are updated and available, with no other left.
pub assess_deployment-RolledOut :
    (Y : Yaml) (body : Y.Value)
    → ((assess_deployment Y body).status ≡ HealthStatusCode.healthy) ↔ RolledOut Y body
assess_deployment-RolledOut Y body =
    let (healthy, passes) = assess_deployment-Passes Y body in
    let (rolled, back) = Passes-RolledOut Y body in (λ h. rolled (healthy h), λ r. passes (back r))

-- What the containers must say for a pod to be healthy.
abbrev pub PodDone : (Y : Yaml) → Y.Value → Type 0
PodDone Y status =
    (unwrap_or "" (text_field Y status "phase") ≡ "Succeeded")
    ⊎ ((unwrap_or "" (text_field Y status "phase") ≡ "Running")
        × (containers_ready Y (and_then (Y.get status "containerStatuses") Y.as_sequence) ≡ true))

-- A pod is reported healthy if and only if it has a status, and either it succeeded, or it runs with
-- at least one container and all of them ready.
pub assess_pod-PodDone :
    (Y : Yaml) (body : Y.Value)
    → ((assess_pod Y body).status ≡ HealthStatusCode.healthy)
      ↔ ((status : Y.Value) × (status_of Y body ≡ some status) × PodDone Y status)
unfolding assess_pod
assess_pod-PodDone Y body = (λ h. fwd (status_of Y body) refl h, λ (status, e, d). bwd status e d)
  where
    judged :
        (status : Y.Value)
        → (pod_status Y (some status)).status ≡ HealthStatusCode.healthy
        → PodDone Y status
    judged status h =
        let phase = unwrap_or "" (text_field Y status "phase") in
        ground (arith, h, eq_iff phase "Succeeded", eq_iff phase "Running")

    fwd :
        (o : Option Y.Value)
        → status_of Y body ≡ o
        → (pod_status Y o).status ≡ HealthStatusCode.healthy
        → (status : Y.Value) × (status_of Y body ≡ some status) × PodDone Y status
    fwd none e h = cc h
    fwd (some status) e h = (status, e, judged status h)

    bwd :
        (status : Y.Value)
        → status_of Y body ≡ some status
        → PodDone Y status
        → (pod_status Y (status_of Y body)).status ≡ HealthStatusCode.healthy
    bwd status e (inl d) = rw (e, d) refl
    bwd status e (inr (d, r)) = rw (e, d, r) refl

-- User expressions never change a kind that has a rule of its own, and where they say nothing the
-- status is that of the assessment without them.
pub assess_with_overrides-tiers :
    {Y : Yaml} (overrides : Manifest Y → Option HealthAssessment) (m : Manifest Y)
    → ((a : HealthAssessment)
        → assess_tier1 m ≡ some a
        → assess_with_overrides overrides m ≡ assess m)
      × (overrides m ≡ none → (assess_with_overrides overrides m).status ≡ (assess m).status)
      × ((a : HealthAssessment)
          → assess_tier1 m ≡ none
          → overrides m ≡ some a
          → assess_with_overrides overrides m ≡ a)
unfolding assess_with_overrides assess
assess_with_overrides-tiers overrides m = (
  λ a h. rw h refl,
  λ h. silent (assess_tier1 m) (assess_by_conditions m) h,
  λ a h k. rw (h, k) refl,
)
  where
    silent :
        (t c : Option HealthAssessment)
        → overrides m ≡ none
        → (unwrap_or
            (unknown "no tier-1, tier-2, or tier-3 signal")
            (or_else t (or_else (overrides m) c))).status
          ≡ (unwrap_or (unknown "no tier-1 or tier-2 signal") (or_else t c)).status
    silent (some a) c h = refl
    silent none (some c) h = rw h refl
    silent none none h = rw h refl
