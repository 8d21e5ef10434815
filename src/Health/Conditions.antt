-- ===== src/Health/Conditions.antt =====
-- The helpers of crates/synchrotron-health/src/lib.rs: assessments, and fields of a resource's body.
use synchrotron.Base.{
  Bool, true, false, not, Option, none, some, List, [], ◌∷◌, String, String_eq, Option_eq, ◌==◌,
  if◌then◌else◌,
}
use synchrotron.Base.Int.{ℤ, ℤ_eq, pos}
use synchrotron.Base.Options.{and_then, unwrap_or}
use synchrotron.Health.{HealthStatusCode}
use synchrotron.Manifest.{Yaml}

pub record HealthAssessment : Type 0 where
  pub status : HealthStatusCode
  pub message : Option String

abbrev pub healthy : HealthAssessment
healthy = record { status = HealthStatusCode.healthy; message = none }

abbrev pub progressing : String → HealthAssessment
progressing msg = record { status = HealthStatusCode.progressing; message = some msg }

abbrev pub degraded : String → HealthAssessment
degraded msg = record { status = HealthStatusCode.degraded; message = some msg }

abbrev pub suspended : String → HealthAssessment
suspended msg = record { status = HealthStatusCode.suspended; message = some msg }

abbrev pub unknown : String → HealthAssessment
unknown msg = record { status = HealthStatusCode.unknown; message = some msg }

abbrev pub find {ℓ} : {A : Type ℓ} → (A → Bool) → List A → Option A
find test [] = none
find test (a ∷ l) = let rest = find test l in if test a then some a else rest

module _ (Y : Yaml) where
  abbrev pub status_of : Y.Value → Option Y.Value
  status_of body = Y.get body "status"

  abbrev pub spec_of : Y.Value → Option Y.Value
  spec_of body = Y.get body "spec"

  abbrev pub drifted : Option ℤ → Option ℤ → Bool
  drifted (some g) (some o) = not (g == o)
  drifted (some g) none = true
  drifted none _ = false

  unfoldable pub generation_drift : Y.Value → Bool
  generation_drift body =
      drifted (and_then (and_then (Y.get body "metadata") (λ m. Y.get m "generation")) Y.as_i64)
        (and_then (and_then (Y.get body "status") (λ s. Y.get s "observedGeneration")) Y.as_i64)

  abbrev pub text_field : Y.Value → String → Option String
  text_field v key = and_then (Y.get v key) Y.as_str

  unfoldable pub find_condition : Y.Value → String → Option Y.Value
  find_condition status type =
      and_then (and_then (Y.get status "conditions") Y.as_sequence)
        (find (λ c. text_field c "type" == some type))

  abbrev pub condition_status : Y.Value → Option String
  condition_status cond = text_field cond "status"

  abbrev pub condition_reason : Y.Value → Option String
  condition_reason cond = text_field cond "reason"

  abbrev pub i64_field : Y.Value → String → ℤ
  i64_field v key = unwrap_or (pos 0) (and_then (Y.get v key) Y.as_i64)
