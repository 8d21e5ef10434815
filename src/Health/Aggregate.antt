-- ===== src/Health/Aggregate.antt =====
-- crates/synchrotron-health/src/aggregate.rs: the health of an app.
pub mod Worst
use synchrotron.Base.{ℕ, Option, none, some, List, [], ◌∷◌, String, if◌then◌else◌, leb, map}
use synchrotron.Health.{HealthStatusCode, severity}
use synchrotron.Health.Conditions.{HealthAssessment}
use synchrotron.Health.Assess.{assess}
use synchrotron.Manifest.{Yaml, Manifest}
use synchrotron.Plan.Resources.{ResourceRef, of}

pub record ResourceHealth : Type 0 where
  pub resource : ResourceRef
  pub assessment : HealthAssessment

pub record AppHealth : Type 0 where
  pub status : HealthStatusCode
  pub message : Option String
  pub resources : List ResourceHealth

-- `max_by_key`: of several greatest elements the last.
unfoldable pub max_from : HealthAssessment → List ResourceHealth → HealthAssessment
max_from best [] = best
max_from best (r ∷ rs) =
    max_from
      (if leb (severity best.status) (severity r.assessment.status) then r.assessment else best) rs

abbrev pub worst : List ResourceHealth → HealthAssessment
worst [] = record { status = HealthStatusCode.healthy; message = none }
worst (r ∷ rs) = max_from r.assessment rs

module _ {Y : Yaml} where
  unfoldable pub aggregate : List (Manifest Y) → AppHealth
  unfolding max_from
  aggregate manifests =
      let resources : List ResourceHealth =
        map (λ m. record { resource = of m; assessment = assess m }) manifests in
      record {
        status = (worst resources).status;
        message = (worst resources).message;
        resources = resources;
      }

  -- `AppHealthChecker::health`, over the manifests that the store returned.
  unfoldable pub checker_health : List (Manifest Y) → HealthStatusCode
  unfolding aggregate
  checker_health manifests = (aggregate manifests).status
