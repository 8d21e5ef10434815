-- ===== src/Diff/Pipeline/Autoscaled.antt =====
-- That the smart diff of crates/synchrotron-diff/src/pipeline.rs leaves the replicas to an autoscaler.
use synchrotron.Base.{
  ◌≡◌, ◌≢◌, ◌∙◌, refl, sym, ap, subst, inl, inr, Bool, true, false, not, ◌||◌, Option, none, some,
  List, [], ◌∷◌, ◌++◌, String, String_eq, ◌==◌, ℕ_eq, List_eq, Option_eq, arith, if◌then◌else◌,
  filter, is_empty, map, All, All-imp, Bool-cases, eq_self,
}
use synchrotron.Base.Filtered.{filter_self, filter-All}
use synchrotron.Base.Text.{codes}
use synchrotron.Base.Result.{Result, ok, err}
use synchrotron.Manifest.{Yaml, Manifest, value}
use synchrotron.Diff.Tree.{Tree}
use synchrotron.Diff.Paths.{field, ValuePath}
use synchrotron.Diff.Compare.{Change, path_of, diff}
use synchrotron.Diff.Ignore.{IgnoreRule, path_glob, IgnoreRules, any_matches}
use synchrotron.Diff.Ownership.{FilteredDiff}
use synchrotron.Diff.AutoIgnore.{
  ControllerKind, hpa, vpa, keda_scaled_object, TargetRef, TargetRef_eq, ScalerEntry, ScalerCache,
  target_of, entries_for, globs_of, replace_with, auto_ignore_rules_for, claim, parse_hpa,
  parse_vpa, parse_keda, parse_scaler, is_kind, update_mode,
}
use synchrotron.Diff.AutoIgnore.Scalers.{aims_at, entries_for-replace_with}
use synchrotron.Diff.Pipeline.{DryRunError, SmartDiffPipeline, evaluate}
use synchrotron.Diff.Pipeline.Partition.{is_dropped, Reports, evaluate-Reports}

abbrev pub replicas_path : ValuePath
replicas_path = record { segments = field (codes "spec") ∷ field (codes "replicas") ∷ [] }

module _ {Y : Yaml} (T : Tree Y) where
  claim-paths :
      (controller : ControllerKind) (paths : List String) (o : Option TargetRef) (e : ScalerEntry)
      → claim Y controller paths o ≡ some e
      → (e.controller ≡ controller) × (e.ignored_paths ≡ paths)
  claim-paths controller paths none e h = cc
  claim-paths controller paths (some target) e h = (cc, cc)

  abbrev KeepsReplicas : ScalerEntry → Option ScalerEntry → Type 0
  KeepsReplicas e o = o ≡ some e → e.controller ≢ vpa → e.ignored_paths ≡ "spec.replicas" ∷ []

  hpa-KeepsReplicas : (m : Manifest Y) (e : ScalerEntry) → KeepsReplicas e (parse_hpa Y m)
  unfolding parse_hpa
  hpa-KeepsReplicas m e h other = (claim-paths hpa _ _ e h).1

  keda-KeepsReplicas : (m : Manifest Y) (e : ScalerEntry) → KeepsReplicas e (parse_keda Y m)
  unfolding parse_keda
  keda-KeepsReplicas m e h other = (claim-paths keda_scaled_object _ _ e h).1

  none-KeepsReplicas : (e : ScalerEntry) → KeepsReplicas e none
  none-KeepsReplicas e h other = cc

  if-KeepsReplicas :
      (e : ScalerEntry) (b : Bool) (o o' : Option ScalerEntry)
      → KeepsReplicas e o
      → KeepsReplicas e o'
      → KeepsReplicas e (if b then o else o')
  if-KeepsReplicas e true o o' k k' = k
  if-KeepsReplicas e false o o' k k' = k'

  vpa-KeepsReplicas : (m : Manifest Y) (e : ScalerEntry) → KeepsReplicas e (parse_vpa Y m)
  unfolding parse_vpa
  vpa-KeepsReplicas m e =
      if-KeepsReplicas e (update_mode Y (value m.body) == some "Off") none _ (none-KeepsReplicas e)
        (λ h other. absurd (other (claim-paths vpa _ _ e h).0))

  parse_scaler-replicas : (m : Manifest Y) (e : ScalerEntry) → KeepsReplicas e (parse_scaler Y m)
  unfolding parse_scaler
  parse_scaler-replicas m e =
      let keda =
        if-KeepsReplicas e (is_kind Y m "keda.sh" "ScaledObject") (parse_keda Y m) none
          (keda-KeepsReplicas m e) (none-KeepsReplicas e) in
      let vertical =
        if-KeepsReplicas e (is_kind Y m "autoscaling.k8s.io" "VerticalPodAutoscaler")
          (parse_vpa Y m) _ (vpa-KeepsReplicas m e) keda in
      if-KeepsReplicas e (is_kind Y m "autoscaling" "HorizontalPodAutoscaler") (parse_hpa Y m) _
        (hpa-KeepsReplicas m e) vertical

  any_matches-append :
      (xs ys : List IgnoreRule) (path : ValuePath) (live : Manifest Y)
      → any_matches T (xs ++ ys) path live
        ≡ (any_matches T xs path live || any_matches T ys path live)
  unfolding any_matches
  any_matches-append [] ys path live = refl
  any_matches-append (r ∷ xs) ys path live = ground (arith, any_matches-append xs ys path live)

  -- The globs of every entry that aims at the target are among the rules.
  any_matches-globs :
      (target : TargetRef) (front back : List ScalerEntry) (e : ScalerEntry) (path : ValuePath)
      (live : Manifest Y)
      → aims_at target e ≡ true
      → any_matches T (map path_glob e.ignored_paths) path live ≡ true
      → any_matches T (globs_of (filter (aims_at target) (front ++ e ∷ back))) path live ≡ true
  unfolding globs_of
  any_matches-globs target [] back e path live aims h = rw aims (
      ground (
        arith,
        h,
        any_matches-append (map path_glob e.ignored_paths) (globs_of (filter (aims_at target) back))
            path live,
      ))
  any_matches-globs target (x ∷ front) back e path live aims h =
      elim (Bool-cases (aims_at target x)) [
        | inl a ↦ rw a (
            ground (
              arith,
              any_matches-globs target front back e path live aims h,
              any_matches-append (map path_glob x.ignored_paths)
                  (globs_of (filter (aims_at target) (front ++ e ∷ back))) path live,
            ))
        | inr a ↦ rw a (any_matches-globs target front back e path live aims h)
      ]

  auto_rules-eq-globs :
      (target : TargetRef) (cache : ScalerCache)
      → (auto_ignore_rules_for target cache).rules ≡ globs_of (entries_for cache target)
  unfolding auto_ignore_rules_for
  auto_rules-eq-globs target cache = go (entries_for cache target)
    where
      go :
          (entries : List ScalerEntry)
          → (IgnoreRules.rules (
              if is_empty entries
              then record { rules = [] }
              else record { rules = globs_of entries }))
            ≡ globs_of entries
      go [] = refl
      go (e ∷ entries) = refl

  replicas_match :
      (live : Manifest Y)
      → any_matches T (map path_glob ("spec.replicas" ∷ [])) replicas_path live ≡ true
  unfolding any_matches
  replicas_match live = refl

  dropped-replicas :
      (p : SmartDiffPipeline Y) (live : Manifest Y) (cache : ScalerCache)
      (front back : List ScalerEntry) (e : ScalerEntry) (c : Change Y.Value)
      → e.target ≡ target_of live
      → e.ignored_paths ≡ "spec.replicas" ∷ []
      → path_of c ≡ replicas_path
      → is_dropped T p live (replace_with cache (front ++ e ∷ back)) c ≡ true
  dropped-replicas p live cache front back e c aims paths here =
      let aimed : aims_at (target_of live) e ≡ true =
        subst (λ t. (e.target == t) ≡ true) aims (eq_self e.target) in
      let hit : any_matches T (map path_glob e.ignored_paths) (path_of c) live ≡ true =
        rw (here, paths) (replicas_match live) in
      let rules =
        auto_rules-eq-globs (target_of live) (replace_with cache (front ++ e ∷ back))
        ∙ ap globs_of ((entries_for-replace_with cache (front ++ e ∷ back)).0 (target_of live)) in
      rw rules
        (ground (arith, any_matches-globs (target_of live) front back e (path_of c) live aimed hit))

  -- Once a horizontal autoscaler or a KEDA object of the cluster aims at the live workload, no change
  -- of its replicas is reported, neither as drift nor as information, whatever the desired
  -- manifest, the other autoscalers and the user's rules are.
  pub evaluate-leaves_replicas :
      (p : SmartDiffPipeline Y) (desired live scaler : Manifest Y) (cache : ScalerCache)
      (front back : List ScalerEntry) (e : ScalerEntry) (r : FilteredDiff Y.Value)
      → parse_scaler Y scaler ≡ some e
      → e.controller ≢ vpa
      → e.target ≡ target_of live
      → evaluate T p desired live (replace_with cache (front ++ e ∷ back)) ≡ ok r
      → All (λ c. path_of c ≢ replicas_path) r.drift
        × All (λ c. path_of c ≢ replicas_path) r.informational
  evaluate-leaves_replicas p desired live scaler cache front back e r parsed other aims done =
      go (p.normalize desired) (
        subst (Reports T p live all (p.normalize desired)) done
          (evaluate-Reports T p desired live all))
    where
      all : ScalerCache
      all = replace_with cache (front ++ e ∷ back)

      Leaves : Change Y.Value → Type 0
      Leaves c = path_of c ≢ replicas_path

      kept-Leaves : (c : Change Y.Value) → not (is_dropped T p live all c) ≡ true → Leaves c
      kept-Leaves c h here =
          let gone =
            dropped-replicas p live cache front back e c aims
              (parse_scaler-replicas scaler e parsed other) here in
          ground (arith, gone)

      go :
          (answer : Result (Manifest Y) DryRunError)
          → Reports T p live all answer (ok r)
          → All Leaves r.drift × All Leaves r.informational
      go (err x) h = cc
      go (ok n) (d, i, _) =
          let kept =
            All-imp (λ c. not (is_dropped T p live all c) ≡ true) kept-Leaves _
              (filter_self (λ c. not (is_dropped T p live all c)) (diff T n live p.list_maps)) in
          (
            subst (All Leaves) (sym d) (filter-All Leaves _ _ kept),
            subst (All Leaves) (sym i) (filter-All Leaves _ _ kept),
          )
