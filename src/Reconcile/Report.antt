-- ===== src/Reconcile/Report.antt =====
-- The data of a pass and what it stands in, crates/synchrotron-reconcile/src/reconcile.rs and the event
-- `SyncOutcome` of crates/synchrotron-core/src/events.rs.
use synchrotron.Base.{ℕ, Bool, true, false, ◌&&◌, Option, none, some, List, String, String_eq}
use synchrotron.Base.Map.{Map}
use synchrotron.Base.Result.{Result, err}
use synchrotron.Health.{HealthStatusCode}
use synchrotron.Manifest.{Yaml, Manifest}
use synchrotron.Plan.Resources.{ResourceRef}
use synchrotron.Plan.{Plan, PlanEntry}
use synchrotron.Wave.Exec.{ApplyError, WaveExecConfig, WaveExecError, WaveExecReport, Cluster}

pub data SourceError : Type 0 where
  not_found : SourceError
  unavailable : String → SourceError

pub data ReconcileError : Type 0 where
  app_not_found : String → ReconcileError
  cluster_not_found : String → ReconcileError
  desired_fetch : String → SourceError → ReconcileError
  live_fetch : String → String → SourceError → ReconcileError

pub record ReconcileOutcome : Type 0 where
  pub app : String
  pub cluster : String
  pub plan : Option Plan
  pub error : Option ReconcileError
  pub apply : Option (Result WaveExecReport WaveExecError)

abbrev pub applied_well : Option (Result WaveExecReport WaveExecError) → Bool
applied_well (some (err e)) = false
applied_well _ = true

abbrev pub is_none {ℓ} : {A : Type ℓ} → Option A → Bool
is_none none = true
is_none (some a) = false

unfoldable pub success : ReconcileOutcome → Bool
success o = is_none o.error && applied_well o.apply

-- The event that a pass publishes.
pub record SyncOutcome : Type 0 where
  pub app : String
  pub cluster : String
  pub success : Bool
  pub message : Option String
  pub trigger : String
  pub revision : Option String
  pub resources_synced : ℕ

pub record Outside (Y : Yaml) : Type 1 where
  pub World : Type 0
  pub desired : World → String → Result (List (Manifest Y)) SourceError × World
  pub live : World → String → String → Result (List (Manifest Y)) SourceError × World
  pub desired_revision : World → String → Option String
  pub now : World → ℕ
  pub sleep : World → ℕ → World
  -- `to_string` of the two errors, and the texts of a failed second read
  pub reconcile_text : ReconcileError → String
  pub wave_text : WaveExecError → String
  pub refetch_desired_text : SourceError → String
  pub refetch_live_text : SourceError → String

module _ {Y : Yaml} (O : Outside Y) where
  pub record ReconcileExecutor : Type 0 where
    pub applier : O.World → PlanEntry → Option (Manifest Y) → Result (Unit {0}) ApplyError × O.World
    pub health : O.World → List ResourceRef → HealthStatusCode × O.World
    pub config : WaveExecConfig

  pub record Reconciler : Type 0 where
    pub has_metrics : Bool
    pub default_executor : Option ReconcileExecutor
    pub cluster_executors : Map String ReconcileExecutor

  -- The world, the published events and the recorded metrics, oldest first.
  pub record State : Type 0 where
    pub world : O.World
    pub bus : List SyncOutcome
    pub reconciles : List Bool
    pub plan_changes : List ℕ

  abbrev pub cluster_of : ReconcileExecutor → Cluster Y
  cluster_of e = record {
    World = O.World;
    apply_entry = e.applier;
    health = e.health;
    now = O.now;
    sleep = O.sleep;
  }
