-- ===== src/Diff/ListMap/Defaults.antt =====
-- `ListMapKeys::defaults` of crates/synchrotron-diff/src/listmap.rs.
use synchrotron.Base.{List, [], ◌∷◌, String}
use synchrotron.Manifest.{Gvk}
use synchrotron.Diff.ListMap.{ListMapKind, ListMapKeys, no_list_maps, register}

abbrev by : String → List String → ListMapKind
by pattern' keys = record { path_pattern = pattern'; keys = keys }

abbrev name : List String
name = "name" ∷ []

-- The patterns below a pod's specification.
abbrev pod_template_patterns : List ListMapKind
pod_template_patterns =
    by "spec.containers" name
    ∷ by "spec.initContainers" name
    ∷ by "spec.ephemeralContainers" name
    ∷ by "spec.containers.*.env" name
    ∷ by "spec.containers.*.envFrom" name
    ∷ by "spec.containers.*.ports" ("containerPort" ∷ "protocol" ∷ [])
    ∷ by "spec.containers.*.volumeMounts" ("mountPath" ∷ [])
    ∷ by "spec.initContainers.*.env" name
    ∷ by "spec.initContainers.*.volumeMounts" ("mountPath" ∷ [])
    ∷ by "spec.volumes" name
    ∷ by "spec.imagePullSecrets" name
    ∷ by "spec.tolerations" ("key" ∷ "operator" ∷ "effect" ∷ [])
    ∷ by "spec.template.spec.containers" name
    ∷ by "spec.template.spec.initContainers" name
    ∷ by "spec.template.spec.containers.*.env" name
    ∷ by "spec.template.spec.containers.*.envFrom" name
    ∷ by "spec.template.spec.containers.*.ports" ("containerPort" ∷ "protocol" ∷ [])
    ∷ by "spec.template.spec.containers.*.volumeMounts" ("mountPath" ∷ [])
    ∷ by "spec.template.spec.initContainers.*.env" name
    ∷ by "spec.template.spec.initContainers.*.volumeMounts" ("mountPath" ∷ [])
    ∷ by "spec.template.spec.volumes" name
    ∷ by "spec.template.spec.imagePullSecrets" name
    ∷ by "spec.template.spec.tolerations" ("key" ∷ "operator" ∷ "effect" ∷ [])
    ∷ []

abbrev any_version : String → String → Gvk
any_version group kind = record { group = group; version = "*"; kind = kind }

abbrev workload_kinds : List Gvk
workload_kinds =
    any_version "" "Pod"
    ∷ any_version "apps" "Deployment"
    ∷ any_version "apps" "StatefulSet"
    ∷ any_version "apps" "DaemonSet"
    ∷ any_version "apps" "ReplicaSet"
    ∷ any_version "batch" "Job"
    ∷ any_version "batch" "CronJob"
    ∷ []

unfoldable pub register_all : ListMapKeys → Gvk → List ListMapKind → ListMapKeys
unfolding register
register_all me gvk [] = me
register_all me gvk (desc ∷ descs) = register_all (register me gvk desc) gvk descs

unfoldable pub register_kinds : ListMapKeys → List Gvk → List ListMapKind → ListMapKeys
unfolding register_all
register_kinds me [] descs = me
register_kinds me (gvk ∷ gvks) descs = register_kinds (register_all me gvk descs) gvks descs

abbrev universal_rules : List ListMapKind
universal_rules =
    by "metadata.ownerReferences" ("uid" ∷ [])
    ∷ by "metadata.managedFields" ("manager" ∷ "operation" ∷ [])
    ∷ []

unfoldable pub defaults : ListMapKeys
unfolding register_kinds register
defaults =
    register
      (register_kinds (record no_list_maps { universal = universal_rules }) workload_kinds
        pod_template_patterns)
      (any_version "" "Service") (by "spec.ports" ("port" ∷ "protocol" ∷ []))
