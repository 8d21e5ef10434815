-- ===== src/Health/Kinds.antt =====
-- The checks of the kinds with a rule of their own, crates/synchrotron-health/src/lib.rs.
use Prim.Native.String.{◌++◌ as append_str}
use synchrotron.Base.{
  Bool, true, false, not, ◌&&◌, Option, none, some, List, [], ◌∷◌, String, String_eq, Option_eq,
  ◌==◌, if◌then◌else◌, is_empty,
}
use synchrotron.Base.Equality.{Bool_eq}
use synchrotron.Base.Int.{ℤ, ltb_ℤ, pos}
use synchrotron.Base.Options.{and_then, unwrap_or}
use synchrotron.Manifest.{Yaml}
use synchrotron.Health.Conditions.{
  HealthAssessment, healthy, progressing, degraded, suspended, unknown, status_of, spec_of,
  generation_drift, find_condition, condition_status, condition_reason, text_field, i64_field,
}

module _ (Y : Yaml) where
  abbrev pub flag : Option Y.Value → String → Bool
  flag spec key = and_then (and_then spec (λ s. Y.get s key)) Y.as_bool == some true

  -- `spec.replicas`, 1 by default
  abbrev pub desired_replicas : Y.Value → ℤ
  desired_replicas body =
      unwrap_or (pos 1) (and_then (and_then (spec_of Y body) (λ s. Y.get s "replicas")) Y.as_i64)

  abbrev pub deadline_exceeded : Option Y.Value → Bool
  deadline_exceeded none = false
  deadline_exceeded (some cond) =
      condition_status Y cond == some "False"
      && condition_reason Y cond == some "ProgressDeadlineExceeded"

  unfoldable pub deployment_rollout : ℤ → ℤ → ℤ → ℤ → HealthAssessment
  deployment_rollout desired updated available total =
      if ltb_ℤ updated desired
      then progressing "rollout in progress"
      else if ltb_ℤ updated total
      then progressing "old replicas pending termination"
      else if ltb_ℤ available updated
      then progressing "replicas not yet available"
      else healthy

  abbrev pub deployment_status : Y.Value → Option Y.Value → HealthAssessment
  deployment_status body none = progressing "status not yet reported"
  deployment_status body (some status) =
      if deadline_exceeded (find_condition Y status "Progressing")
      then degraded "progress deadline exceeded"
      else deployment_rollout (desired_replicas body) (i64_field Y status "updatedReplicas")
          (i64_field Y status "availableReplicas") (i64_field Y status "replicas")

  unfoldable pub assess_deployment : Y.Value → HealthAssessment
  unfolding deployment_rollout
  assess_deployment body =
      if flag (spec_of Y body) "paused"
      then suspended "deployment paused"
      else if generation_drift Y body
      then progressing "generation not yet observed"
      else deployment_status body (status_of Y body)

  abbrev pub rolling : Option String → Option String → Bool
  rolling (some current) (some update) = not (current == update)
  rolling (some current) none = false
  rolling none _ = false

  abbrev pub statefulset_status : Y.Value → Option Y.Value → HealthAssessment
  statefulset_status body none = progressing "status not yet reported"
  statefulset_status body (some status) =
      if ltb_ℤ (i64_field Y status "readyReplicas") (desired_replicas body)
      then progressing "replicas not yet ready"
      else if rolling (text_field Y status "currentRevision") (text_field Y status "updateRevision")
      then progressing "rolling to new revision"
      else healthy

  unfoldable pub assess_statefulset : Y.Value → HealthAssessment
  assess_statefulset body =
      if generation_drift Y body
      then progressing "generation not yet observed"
      else statefulset_status body (status_of Y body)

  abbrev pub daemonset_status : Option Y.Value → HealthAssessment
  daemonset_status none = progressing "status not yet reported"
  daemonset_status (some status) =
      let desired = i64_field Y status "desiredNumberScheduled" in
      if ltb_ℤ (i64_field Y status "updatedNumberScheduled") desired
      then progressing "pods not yet updated on all nodes"
      else if ltb_ℤ (i64_field Y status "numberAvailable") desired
      then progressing "pods not yet available on all nodes"
      else healthy

  unfoldable pub assess_daemonset : Y.Value → HealthAssessment
  assess_daemonset body =
      if generation_drift Y body
      then progressing "generation not yet observed"
      else daemonset_status (status_of Y body)

  -- A condition that is present and has this status.
  abbrev pub reports : Option Y.Value → String → Bool
  reports none value = false
  reports (some cond) value = condition_status Y cond == some value

  abbrev pub job_status : Y.Value → Option Y.Value → HealthAssessment
  job_status body none = progressing "job not yet started"
  job_status body (some status) =
      if reports (find_condition Y status "Failed") "True"
      then degraded "job failed"
      else if reports (find_condition Y status "Complete") "True"
      then healthy
      else if flag (spec_of Y body) "suspend"
      then suspended "job suspended"
      else progressing "job running"

  unfoldable pub assess_job : Y.Value → HealthAssessment
  assess_job body = job_status body (status_of Y body)

  abbrev pub every_ready : List Y.Value → Bool
  every_ready [] = true
  every_ready (c ∷ cs) = and_then (Y.get c "ready") Y.as_bool == some true && every_ready cs

  abbrev pub containers_ready : Option (List Y.Value) → Bool
  containers_ready none = false
  containers_ready (some containers) = not (is_empty containers) && every_ready containers

  abbrev pub pod_status : Option Y.Value → HealthAssessment
  pod_status none = progressing "pod pending"
  pod_status (some status) =
      let phase = unwrap_or "" (text_field Y status "phase") in
      if phase == "Succeeded"
      then healthy
      else if phase == "Failed"
      then degraded "pod failed"
      else if phase == "Pending"
      then progressing "pod pending"
      else if phase == "Running"
      then (if containers_ready (and_then (Y.get status "containerStatuses") Y.as_sequence)
          then healthy
          else progressing "containers not all ready")
      else unknown (append_str "pod phase " phase)

  unfoldable pub assess_pod : Y.Value → HealthAssessment
  assess_pod body = pod_status (status_of Y body)

  abbrev pub filled : Option (List Y.Value) → Bool
  filled none = false
  filled (some l) = not (is_empty l)

  abbrev pub has_ingress : Y.Value → Bool
  has_ingress body = filled (
      and_then
        (and_then (and_then (status_of Y body) (λ s. Y.get s "loadBalancer"))
          (λ l. Y.get l "ingress"))
        Y.as_sequence)

  unfoldable pub assess_ingress : Y.Value → HealthAssessment
  assess_ingress body =
      if has_ingress body then healthy else progressing "awaiting load balancer ingress"

  unfoldable pub assess_service : Y.Value → HealthAssessment
  assess_service body =
      if not
        (and_then (and_then (spec_of Y body) (λ s. Y.get s "type")) Y.as_str == some "LoadBalancer")
      then healthy
      else if has_ingress body
      then healthy
      else progressing "awaiting load balancer ingress"

  abbrev pub pvc_status : Option Y.Value → HealthAssessment
  pvc_status none = progressing "pvc not yet bound"
  pvc_status (some status) =
      let phase = unwrap_or "" (text_field Y status "phase") in
      if phase == "Bound"
      then healthy
      else if phase == "Pending"
      then progressing "pvc pending"
      else if phase == "Lost"
      then degraded "pvc lost"
      else unknown (append_str "pvc phase " phase)

  unfoldable pub assess_pvc : Y.Value → HealthAssessment
  assess_pvc body = pvc_status (status_of Y body)

  abbrev pub crd_status : Option Y.Value → HealthAssessment
  crd_status none = progressing "crd not yet established"
  crd_status (some status) =
      if reports (find_condition Y status "NamesAccepted") "False"
      then degraded "crd names not accepted"
      else if reports (find_condition Y status "Established") "True"
      then healthy
      else progressing "crd not yet established"

  unfoldable pub assess_crd : Y.Value → HealthAssessment
  assess_crd body = crd_status (status_of Y body)

  abbrev pub reason_or : String → Option Y.Value → String
  reason_or default cond = unwrap_or default (and_then cond (condition_reason Y))

  abbrev pub hpa_status : Option Y.Value → HealthAssessment
  hpa_status none = progressing "hpa not yet reported"
  hpa_status (some status) =
      let able = find_condition Y status "AbleToScale" in
      let active = find_condition Y status "ScalingActive" in
      if reports able "False"
      then degraded (reason_or "hpa unable to scale" able)
      else if reports active "True"
      then healthy
      else if reports active "False"
      then degraded (reason_or "hpa scaling inactive" active)
      else progressing "hpa initialising"

  unfoldable pub assess_hpa : Y.Value → HealthAssessment
  assess_hpa body = hpa_status (status_of Y body)
