-- ===== src/Health/Samples.antt =====
-- Tests of the assessments, and their theorems at concrete inputs.
use synchrotron.Base.{none, ◌≡◌, ◌↔◌, refl, true, Option, some, [], ◌∷◌, String, map}
use synchrotron.Base.Int.{pos}
use synchrotron.Manifest.{Manifest}
use synchrotron.Manifest.Samples.{Sample, Node, null, int, str, bool, item, field, core}
use synchrotron.Plan.Resources.{of}
use synchrotron.Health.{HealthStatusCode}
use synchrotron.Health.Conditions.{HealthAssessment, degraded, generation_drift}
use synchrotron.Health.Kinds.{assess_deployment}
use synchrotron.Health.Assess.{assess}
use synchrotron.Health.Rollout.{RolledOut, assess_deployment-RolledOut}
use synchrotron.Health.Aggregate.{aggregate}
use synchrotron.Health.Aggregate.Worst.{LastWorst, aggregate-LastWorst}

abbrev rolled_out : Node
rolled_out =
    field "status"
      (field "updatedReplicas" (int (pos 1))
        (field "availableReplicas" (int (pos 1)) (field "replicas" (int (pos 1)) null)))
      null

-- A pause hides that the spec was not observed.
paused_and_drifted :
    (assess_deployment Sample (
      field "spec" (field "paused" (bool true) null) (
        field "metadata"
          (field "generation" (int (pos 2)) null)
          (field "status" (field "observedGeneration" (int (pos 1)) null) null)))).status
    ≡ HealthStatusCode.suspended
unfolding assess_deployment generation_drift
paused_and_drifted = refl

assess_deployment-RolledOut_example :
    ((assess_deployment Sample rolled_out).status ≡ HealthStatusCode.healthy)
    ↔ RolledOut Sample rolled_out
assess_deployment-RolledOut_example = assess_deployment-RolledOut Sample rolled_out

abbrev pod : Node
pod =
    field "status"
      (field "phase" (str "Running")
        (field "containerStatuses" (item (field "ready" (bool true) null) null) null))
      null

abbrev custom : Manifest Sample
custom = core 1 "Widget" "w" null

abbrev always_degraded : Manifest Sample → Option HealthAssessment
always_degraded m = some (degraded "broken")

abbrev waiting : String → Manifest Sample
waiting name = core 2 "PersistentVolumeClaim" name null

abbrev ready : Manifest Sample
ready = core 3 "Pod" "ready" pod

aggregate-LastWorst_example :
    let h = aggregate (waiting "a" ∷ ready ∷ waiting "b" ∷ []) in
    LastWorst h.resources h.status h.message
    × (h.resources
        ≡ map
            (λ m. record { resource = of m; assessment = assess m })
            (waiting "a" ∷ ready ∷ waiting "b" ∷ []))
    × ((aggregate {Y = Sample} []).status ≡ HealthStatusCode.healthy)
    × ((aggregate {Y = Sample} []).message ≡ none)
aggregate-LastWorst_example = aggregate-LastWorst (waiting "a") (ready ∷ waiting "b" ∷ [])
