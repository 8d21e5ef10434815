-- ===== src/Diff/Pipeline/Partition.antt =====
-- What crates/synchrotron-diff/src/pipeline.rs reports of a pair of manifests.
use synchrotron.Base.{
  ◌≡◌, ◌∙◌, refl, ap, inl, inr, Bool, true, not, ◌||◌, Option, none, some, String_eq, ◌==◌, List,
  [], ◌∷◌, String, arith, if◌then◌else◌, filter, length, is_empty, Bool-cases,
}
use synchrotron.Base.Result.{Result, ok, err, ◌>>=◌}
use synchrotron.Manifest.{Yaml, Manifest, value}
use synchrotron.Diff.Tree.{Tree}
use synchrotron.Diff.Compare.{Change, path_of, diff}
use synchrotron.Diff.Ignore.{IgnoreRule, IgnoreRules, any_matches, apply_rules}
use synchrotron.Diff.ManagedFields.{owner_of}
use synchrotron.Diff.Ownership.{
  FilteredDiff, is_ours, total_changes, partition_changes, apply_ownership,
}
use synchrotron.Diff.AutoIgnore.{ScalerCache, target_of, auto_ignore_rules_for}
use synchrotron.Diff.Pipeline.{DryRunError, SmartDiffPipeline, evaluate}

-- A field of no manager is taken as ours.
abbrev of_ours : String → Option String → Bool
of_ours our_manager none = true
of_ours our_manager (some manager) = manager == our_manager

module _ {Y : Yaml} (T : Tree Y) where
  -- The change is of a field that is ours or nobody's.
  abbrev pub counts : String → Manifest Y → Change Y.Value → Bool
  counts our_manager live c = of_ours our_manager (owner_of T (path_of c) (value live.body))

  counts-is_ours :
      (our_manager : String) (o : Option String) → is_ours our_manager o ≡ of_ours our_manager o
  counts-is_ours our_manager none = refl
  counts-is_ours our_manager (some manager) = refl

  -- Some rule takes the change out.
  abbrev pub is_ignored : IgnoreRules → Manifest Y → Change Y.Value → Bool
  is_ignored rules live c = any_matches T rules.rules (path_of c) live

  pub apply_rules-eq-filter :
      (rules : IgnoreRules) (changes : List (Change Y.Value)) (live : Manifest Y)
      → apply_rules T rules changes live ≡ filter (λ c. not (is_ignored rules live c)) changes
  unfolding apply_rules
  apply_rules-eq-filter rules changes live = go rules.rules
    where
      unruled :
          (cs : List (Change Y.Value))
          → cs ≡ filter (λ c. not (any_matches T [] (path_of c) live)) cs
      unruled [] = refl
      unruled (c ∷ cs) = ap (λ l. c ∷ l) (unruled cs)

      go :
          (rs : List IgnoreRule)
          → (if is_empty rs
              then changes
              else filter (λ c. not (any_matches T rs (path_of c) live)) changes)
            ≡ filter (λ c. not (any_matches T rs (path_of c) live)) changes
      go [] = unruled changes
      go (r ∷ rs) = refl

  filter-filter :
      {A : Type 0} (p q : A → Bool) (xs : List A)
      → filter (λ x. not (p x)) (filter (λ x. not (q x)) xs) ≡ filter (λ x. not (q x || p x)) xs
  filter-filter p q [] = refl
  filter-filter p q (x ∷ xs) = ground (arith, filter-filter p q xs)

  abbrev Divided : (Change Y.Value → Bool) → List (Change Y.Value) → FilteredDiff Y.Value → Type 0
  Divided p changes r =
      (r.drift ≡ filter p changes)
      × (r.informational ≡ filter (λ c. not (p c)) changes)
      × (total_changes r ≡ length changes)

  partition-Divided :
      (our_manager : String) (live : Manifest Y) (changes : List (Change Y.Value))
      → Divided
          (counts our_manager live)
          changes
          (partition_changes T our_manager (value live.body) changes)
  unfolding partition_changes
  partition-Divided our_manager live [] = (refl, refl, refl)
  partition-Divided our_manager live (c ∷ changes) =
      let (d, i, n) = partition-Divided our_manager live changes in
      elim (Bool-cases (counts our_manager live c)) [
        | inl h ↦
            rw (counts-is_ours our_manager (owner_of T (path_of c) (value live.body)), h)
              (ap (λ l. c ∷ l) d, i, omega (arith, n))
        | inr h ↦
            rw (counts-is_ours our_manager (owner_of T (path_of c) (value live.body)), h)
              (d, ap (λ l. c ∷ l) i, omega (arith, n))
      ]

  -- Either kind of rules takes the change out.
  abbrev pub is_dropped : SmartDiffPipeline Y → Manifest Y → ScalerCache → Change Y.Value → Bool
  is_dropped p live cache c =
      is_ignored (auto_ignore_rules_for (target_of live) cache) live c
      || is_ignored p.user_rules live c

  -- What is reported, by what the server answers to the dry run.
  abbrev pub Reports :
      SmartDiffPipeline Y
      → Manifest Y
      → ScalerCache
      → Result (Manifest Y) DryRunError
      → Result (FilteredDiff Y.Value) DryRunError
      → Type 0
  Reports p live cache (err e) r = r ≡ err e
  Reports p live cache (ok normalized) (err e) = ⊥
  Reports p live cache (ok normalized) (ok r) =
      Divided (counts p.ownership.our_manager live)
        (filter (λ c. not (is_dropped p live cache c)) (diff T normalized live p.list_maps)) r

  pub evaluate-Reports :
      (p : SmartDiffPipeline Y) (desired live : Manifest Y) (cache : ScalerCache)
      → Reports p live cache (p.normalize desired) (evaluate T p desired live cache)
  unfolding evaluate
  evaluate-Reports p desired live cache = go (p.normalize desired)
    where
      dropped : Manifest Y → List (Change Y.Value)
      dropped n = filter (λ c. not (is_dropped p live cache c)) (diff T n live p.list_maps)

      raw : Manifest Y → List (Change Y.Value)
      raw n = diff T n live p.list_maps

      after_auto : Manifest Y → List (Change Y.Value)
      after_auto n = apply_rules T (auto_ignore_rules_for (target_of live) cache) (raw n) live

      rules-filter : (n : Manifest Y) → apply_rules T p.user_rules (after_auto n) live ≡ dropped n
      rules-filter n =
          apply_rules-eq-filter p.user_rules (after_auto n) live
          ∙ ap (filter (λ c. not (is_ignored p.user_rules live c)))
              (apply_rules-eq-filter (auto_ignore_rules_for (target_of live) cache) (raw n) live)
          ∙ filter-filter (is_ignored p.user_rules live)
              (is_ignored (auto_ignore_rules_for (target_of live) cache) live) (raw n)

      divided :
          (n : Manifest Y)
          → Divided
              (counts p.ownership.our_manager live)
              (dropped n)
              (apply_ownership T p.ownership (dropped n) live)
      divided n =
          unfold apply_ownership in partition-Divided p.ownership.our_manager live (dropped n)

      go :
          (answer : Result (Manifest Y) DryRunError)
          → Reports p live cache answer (
              answer >>= λ n.
              ok (
                apply_ownership T p.ownership
                  (apply_rules T p.user_rules (after_auto n) live)
                  live))
      go (err e) = refl
      go (ok n) = rw (rules-filter n) (divided n)
