-- ===== src/Health.antt =====
-- crates/synchrotron-types/src/health.rs: the health of a resource.
pub mod Conditions
pub mod Kinds
pub mod Assess
pub mod Rollout
pub mod Aggregate
pub mod Samples
use synchrotron.Base.{ℕ, Option, Bool, String, nat_eq, ◌==◌, String_eq, if◌then◌else◌}

pub data HealthStatusCode : Type 0 where
  healthy progressing suspended unknown missing degraded : HealthStatusCode

-- The discriminants, which order the codes by severity.
abbrev pub severity : HealthStatusCode → ℕ
severity healthy = 0
severity progressing = 1
severity suspended = 2
severity unknown = 3
severity missing = 4
severity degraded = 5

abbrev pub code_beq : HealthStatusCode → HealthStatusCode → Bool
code_beq a b = nat_eq (severity a) (severity b)

unfoldable pub as_str : HealthStatusCode → String
as_str healthy = "Healthy"
as_str progressing = "Progressing"
as_str suspended = "Suspended"
as_str unknown = "Unknown"
as_str missing = "Missing"
as_str degraded = "Degraded"

unfoldable pub from_str_lossy : String → HealthStatusCode
from_str_lossy s =
    if s == "Healthy"
    then healthy
    else if s == "Progressing"
    then progressing
    else if s == "Suspended"
    then suspended
    else if s == "Missing"
    then missing
    else if s == "Degraded"
    then degraded
    else unknown

pub record HealthStatus : Type 0 where
  pub code : HealthStatusCode
  pub message : Option String
