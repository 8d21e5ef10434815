-- ===== src/Diff/AutoIgnore.antt =====
-- crates/synchrotron-diff/src/auto_ignore.rs: which fields the autoscalers of the cluster may change.
pub mod Scalers
use text.Mathlib.TextEquality.{eq_iff}
use synchrotron.Base.{
  ℕ, ◌+◌, ◌≡◌, ◌↔◌, Bool, true, ◌&&◌, Option, none, some, List, [], ◌∷◌, ◌++◌, String, ◌==◌,
  String_eq, Option_eq, PartialEq, arith, option_beq_iff, if◌then◌else◌, is_empty, length, map,
}
use synchrotron.Base.Map.{Map, get, insert}
use synchrotron.Base.Options.{and_then}
use synchrotron.Manifest.{Yaml, Gvk, Gvk_eq, gvk_beq_iff, Manifest, value}
use synchrotron.Manifest.Stream.{parse_gvk}
use synchrotron.Diff.Ignore.{IgnoreRule, path_glob, IgnoreRules}

pub record TargetRef : Type 0 where
  pub gvk : Gvk
  pub namespace : Option String
  pub name : String

abbrev pub target_beq : TargetRef → TargetRef → Bool
target_beq a b = a.gvk == b.gvk && a.namespace == b.namespace && a.name == b.name

pub target_beq_iff : (a b : TargetRef) → (target_beq a b ≡ true) ↔ (a ≡ b)
target_beq_iff a b =
    ground
      (arith, gvk_beq_iff a.gvk b.gvk, option_beq_iff a.namespace b.namespace, eq_iff a.name b.name)

instance abbrev pub TargetRef_eq : PartialEq TargetRef
TargetRef_eq = record { tests = target_beq; decides = target_beq_iff }

-- `TargetRef::from_manifest`
abbrev pub target_of : {Y : Yaml} → Manifest Y → TargetRef
target_of m = record { gvk = m.gvk; namespace = m.namespace; name = m.name }

pub data ControllerKind : Type 0 where
  hpa vpa keda_scaled_object : ControllerKind

pub record ScalerEntry : Type 0 where
  pub controller : ControllerKind
  pub target : TargetRef
  pub ignored_paths : List String

pub record ScalerCache : Type 0 where
  pub by_target : Map TargetRef (List ScalerEntry)

abbrev pub empty_cache : ScalerCache
empty_cache = record { by_target = [] }

abbrev pub entries_of : Option (List ScalerEntry) → List ScalerEntry
entries_of none = []
entries_of (some entries) = entries

unfoldable pub entries_for : ScalerCache → TargetRef → List ScalerEntry
unfolding get
entries_for cache target = entries_of (get cache.by_target target)

unfoldable pub insert_entry : ScalerCache → ScalerEntry → ScalerCache
unfolding get insert
insert_entry cache entry = record {
  by_target =
      insert cache.by_target entry.target
        (entries_of (get cache.by_target entry.target) ++ entry ∷ []);
}

unfoldable pub insert_entries : ScalerCache → List ScalerEntry → ScalerCache
unfolding insert_entry
insert_entries cache [] = cache
insert_entries cache (e ∷ entries) = insert_entries (insert_entry cache e) entries

-- `replace_with`: cleared, then filled
unfoldable pub replace_with : ScalerCache → List ScalerEntry → ScalerCache
unfolding insert_entries
replace_with cache entries = insert_entries (record cache { by_target = [] }) entries

total_entries : Map TargetRef (List ScalerEntry) → ℕ
total_entries [] = 0
total_entries ((target, entries) ∷ m) = length entries + total_entries m

-- `ScalerCache::len`
unfoldable pub cache_len : ScalerCache → ℕ
unfolding total_entries
cache_len cache = total_entries cache.by_target

unfoldable pub globs_of : List ScalerEntry → List IgnoreRule
globs_of [] = []
globs_of (entry ∷ entries) = map path_glob entry.ignored_paths ++ globs_of entries

unfoldable pub auto_ignore_rules_for : TargetRef → ScalerCache → IgnoreRules
unfolding entries_for globs_of
auto_ignore_rules_for target cache =
    let entries = entries_for cache target in
    if is_empty entries then record { rules = [] } else record { rules = globs_of entries }

module _ (Y : Yaml) where
  walk : Option Y.Value → List String → Option Y.Value
  walk cur [] = cur
  walk cur (seg ∷ path) = walk (and_then cur (λ v. Y.get v seg)) path

  abbrev str_at : Y.Value → String → Option String
  str_at v key = and_then (Y.get v key) Y.as_str

  -- The three texts must be there.
  unfoldable pub parse_scale_target_ref : Y.Value → List String → Option String → Option TargetRef
  unfolding walk parse_gvk
  parse_scale_target_ref body path default_namespace = and_then (walk (some body) path) λ cur.
      and_then (str_at cur "apiVersion") λ api_version. and_then (str_at cur "kind") λ kind.
        and_then (str_at cur "name") λ name.
          some (record {
            gvk = parse_gvk api_version kind;
            namespace = default_namespace;
            name = name;
          })

  abbrev pub claim : ControllerKind → List String → Option TargetRef → Option ScalerEntry
  claim controller paths none = none
  claim controller paths (some target) =
      some (record { controller = controller; target = target; ignored_paths = paths })

  unfoldable pub parse_hpa : Manifest Y → Option ScalerEntry
  unfolding parse_scale_target_ref
  parse_hpa m =
      claim hpa ("spec.replicas" ∷ [])
        (parse_scale_target_ref (value m.body) ("spec" ∷ "scaleTargetRef" ∷ []) m.namespace)

  abbrev pub update_mode : Y.Value → Option String
  update_mode body =
      and_then
        (and_then (and_then (Y.get body "spec") (λ s. Y.get s "updatePolicy"))
          (λ u. Y.get u "updateMode"))
        Y.as_str

  -- An autoscaler that is off only recommends.
  unfoldable pub parse_vpa : Manifest Y → Option ScalerEntry
  unfolding parse_scale_target_ref
  parse_vpa m =
      if update_mode (value m.body) == some "Off"
      then none
      else claim vpa ("spec.template.spec.containers.*.resources" ∷ [])
          (parse_scale_target_ref (value m.body) ("spec" ∷ "targetRef" ∷ []) m.namespace)

  unfoldable pub parse_keda : Manifest Y → Option ScalerEntry
  unfolding parse_scale_target_ref
  parse_keda m =
      claim keda_scaled_object ("spec.replicas" ∷ [])
        (parse_scale_target_ref (value m.body) ("spec" ∷ "scaleTargetRef" ∷ []) m.namespace)

  abbrev pub is_kind : Manifest Y → String → String → Bool
  is_kind m group kind = m.gvk.group == group && m.gvk.kind == kind

  unfoldable pub parse_scaler : Manifest Y → Option ScalerEntry
  unfolding parse_hpa parse_vpa parse_keda
  parse_scaler m =
      if is_kind m "autoscaling" "HorizontalPodAutoscaler"
      then parse_hpa m
      else if is_kind m "autoscaling.k8s.io" "VerticalPodAutoscaler"
      then parse_vpa m
      else if is_kind m "keda.sh" "ScaledObject"
      then parse_keda m
      else none
