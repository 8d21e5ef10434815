-- ===== src/Health/Assess.antt =====
-- The tiers of an assessment, crates/synchrotron-health/src/lib.rs. The user's expressions of
-- crates/synchrotron-health/src/cel.rs are a parameter.
use synchrotron.Base.{◌&&◌, Option, none, some, String, String_eq, ◌==◌, if◌then◌else◌}
use synchrotron.Base.Options.{and_then, or_else, unwrap_or, map_option}
use synchrotron.Manifest.{Yaml, Manifest, value}
use synchrotron.Health.Conditions.{
  HealthAssessment, healthy, progressing, degraded, unknown, find_condition, condition_status,
  condition_reason, text_field,
}
use synchrotron.Health.Kinds.{
  assess_deployment, assess_statefulset, assess_daemonset, assess_job, assess_pod, assess_service,
  assess_ingress, assess_pvc, assess_crd, assess_hpa,
}

abbrev or_text : String → String → String
or_text default detail = if detail == "" then default else detail

module _ (Y : Yaml) where
  unfoldable pub assess_kind : String → String → Y.Value → Option HealthAssessment
  assess_kind group kind body =
      if group == "apps" && kind == "Deployment"
      then some (assess_deployment Y body)
      else if group == "apps" && kind == "StatefulSet"
      then some (assess_statefulset Y body)
      else if group == "apps" && kind == "DaemonSet"
      then some (assess_daemonset Y body)
      else if group == "batch" && kind == "Job"
      then some (assess_job Y body)
      else if group == "" && kind == "Pod"
      then some (assess_pod Y body)
      else if group == "" && kind == "Service"
      then some (assess_service Y body)
      else if group == "networking.k8s.io" && kind == "Ingress"
      then some (assess_ingress Y body)
      else if group == "" && kind == "PersistentVolumeClaim"
      then some (assess_pvc Y body)
      else if group == "apiextensions.k8s.io" && kind == "CustomResourceDefinition"
      then some (assess_crd Y body)
      else if group == "autoscaling" && kind == "HorizontalPodAutoscaler"
      then some (assess_hpa Y body)
      else none

  unfoldable pub health_from_condition : Y.Value → HealthAssessment
  health_from_condition cond =
      let status = unwrap_or "" (condition_status Y cond) in
      let detail = unwrap_or "" (or_else (condition_reason Y cond) (text_field Y cond "message")) in
      if status == "True"
      then healthy
      else if status == "False"
      then degraded (or_text "condition reports false" detail)
      else progressing (or_text "condition status unknown" detail)

module _ {Y : Yaml} where
  unfoldable pub assess_tier1 : Manifest Y → Option HealthAssessment
  unfolding assess_kind
  assess_tier1 m = assess_kind Y m.gvk.group m.gvk.kind (value m.body)

  unfoldable pub assess_by_conditions : Manifest Y → Option HealthAssessment
  unfolding health_from_condition
  assess_by_conditions m = map_option (health_from_condition Y) (
      and_then (Y.get (value m.body) "status")
        (λ status. or_else (find_condition Y status "Ready") (find_condition Y status "Available")))

  unfoldable pub assess : Manifest Y → HealthAssessment
  assess m =
      unwrap_or (unknown "no tier-1 or tier-2 signal")
        (or_else (assess_tier1 m) (assess_by_conditions m))

  unfoldable pub assess_with_overrides :
      (Manifest Y → Option HealthAssessment) → Manifest Y → HealthAssessment
  assess_with_overrides overrides m =
      unwrap_or (unknown "no tier-1, tier-2, or tier-3 signal")
        (or_else (assess_tier1 m) (or_else (overrides m) (assess_by_conditions m)))
