-- ===== src/Hooks/Partition.antt =====
-- How crates/synchrotron-reconcile/src/hooks.rs divides the desired manifests.
use mathlib.Core.List.{append-nil, append_assoc}
use synchrotron.Base.{
  ℕ, ℕ_eq, List_eq, Option, none, some, String, ◌≡◌, refl, sym, ap, ◌∙◌, Bool, true, false, not,
  ◌&&◌, ◌||◌, List, [], ◌∷◌, ◌++◌, ◌==◌, arith, if◌then◌else◌, filter, map, contains, if_cases,
  list_beq_iff,
}
use synchrotron.Base.Options.{or_else}
use synchrotron.Base.Text.{codes}
use synchrotron.Manifest.{Yaml, Manifest}
use synchrotron.Hooks.{
  HookPhase, pre_sync, post_sync, sync_fail, HookDeletePolicy, hook_succeeded, hook_failed,
  before_hook_creation, Set3, empty_set, has_policy, tokens, collected, annotation, set_is_empty,
  has_phase, collect, Hook, HookSplit, parse_hook_phases, parse_hook_delete_policies, split_from,
  split_hooks, hooks_for_phase,
}

module _ {Y : Yaml} where
  abbrev pub is_hook : Manifest Y → Bool
  is_hook m = not (set_is_empty (parse_hook_phases m))

  abbrev pub hook_of : Manifest Y → Hook Y
  hook_of m = record {
    manifest = m;
    phases = parse_hook_phases m;
    delete_policies = parse_hook_delete_policies m;
  }

  split_from-filter :
      (split : HookSplit Y) (ms : List (Manifest Y))
      → ((split_from split ms).non_hook ≡ split.non_hook ++ filter (λ m. not (is_hook m)) ms)
        × ((split_from split ms).hooks ≡ split.hooks ++ map hook_of (filter is_hook ms))
  unfolding split_from
  split_from-filter split [] = (sym (append-nil split.non_hook), sym (append-nil split.hooks))
  split_from-filter split (m ∷ ms) =
      if_cases
        (λ x.
          ((split_from x ms).non_hook ≡ split.non_hook ++ filter (λ m. not (is_hook m)) (m ∷ ms))
          × ((split_from x ms).hooks ≡ split.hooks ++ map hook_of (filter is_hook (m ∷ ms))))
        (set_is_empty (parse_hook_phases m)) _ _
        (λ h.
          let rest = split_from-filter (record split { non_hook = split.non_hook ++ m ∷ [] }) ms in
          rw h (rest.0 ∙ append_assoc split.non_hook (m ∷ []) _, rest.1))
        (λ h.
          let rest =
            split_from-filter (record split { hooks = split.hooks ++ hook_of m ∷ [] }) ms in
          rw h (rest.0, rest.1 ∙ append_assoc split.hooks (hook_of m ∷ []) _))

  phase_filter :
      (ms : List (Manifest Y)) (phase : HookPhase)
      → filter (λ h. has_phase h.phases phase) (map hook_of (filter is_hook ms))
        ≡ map hook_of (filter (λ m. has_phase (parse_hook_phases m) phase) ms)
  phase_filter [] phase = refl
  phase_filter (m ∷ ms) phase =
      ground (arith, phase_filter ms phase, member (parse_hook_phases m) phase)
    where
      member : (s : Set3) (phase : HookPhase) → has_phase s phase ≡ true → set_is_empty s ≡ false
      member s HookPhase.pre_sync h = ground arith
      member s HookPhase.post_sync h = ground arith
      member s HookPhase.sync_fail h = ground arith

  -- The split loses, duplicates and reorders nothing: the manifests without a phase go on as they
  -- are, the others become hooks with their own phases and policies, and the hooks of a phase
  -- are, in the order of the input, those of all manifests that name the phase.
  pub split_hooks-filter :
      (ms : List (Manifest Y))
      → ((split_hooks ms).non_hook ≡ filter (λ m. not (is_hook m)) ms)
        × ((split_hooks ms).hooks ≡ map hook_of (filter is_hook ms))
        × ((phase : HookPhase)
            → hooks_for_phase (split_hooks ms).hooks phase
              ≡ map hook_of (filter (λ m. has_phase (parse_hook_phases m) phase) ms))
  unfolding split_hooks hooks_for_phase
  split_hooks-filter ms =
      let all = split_from-filter (record { non_hook = []; hooks = [] }) ms in
      (
        all.0,
        all.1,
        λ phase. ap (filter (λ h. has_phase h.phases phase)) all.1 ∙ phase_filter ms phase,
      )

abbrev marks : Bool → Bool → Bool → Set3 → Set3
marks x y z out =
    if x
    then record out { first = true }
    else if y
    then record out { second = true }
    else if z
    then record out { third = true }
    else out

apart : (t a b : List ℕ) → (a == b) ≡ false → (t == a && t == b) ≡ false
apart t a b h = ground (arith, list_beq_iff t a, list_beq_iff t b, list_beq_iff a b)

-- One token, of which at most one name is right.
marked :
    (x y z : Bool) (out : Set3) (p q r : Bool)
    → (x && y) ≡ false
    → (x && z) ≡ false
    → (y && z) ≡ false
    → (((marks x y z out).first || p) ≡ (out.first || (x || p)))
      × (((marks x y z out).second || q) ≡ (out.second || (y || q)))
      × (((marks x y z out).third || r) ≡ (out.third || (z || r)))
marked true y z out p q r xy xz yz = (ground arith, ground arith, ground arith)
marked false true z out p q r xy xz yz = (ground arith, ground arith, ground arith)
marked false false true out p q r xy xz yz = (ground arith, ground arith, ground arith)
marked false false false out p q r xy xz yz = (ground arith, ground arith, ground arith)

collect-contains :
    (a b c : List ℕ) (out : Set3) (ts : List (List ℕ))
    → (a == b) ≡ false
    → (a == c) ≡ false
    → (b == c) ≡ false
    → ((collect a b c out ts).first ≡ (out.first || contains ts a))
      × ((collect a b c out ts).second ≡ (out.second || contains ts b))
      × ((collect a b c out ts).third ≡ (out.third || contains ts c))
unfolding collect
collect-contains a b c out [] ab ac bc = (ground arith, ground arith, ground arith)
collect-contains a b c out (t ∷ ts) ab ac bc =
    let rest = collect-contains a b c (marks (t == a) (t == b) (t == c) out) ts ab ac bc in
    let step =
      marked (t == a) (t == b) (t == c) out (contains ts a) (contains ts b) (contains ts c)
        (apart t a b ab) (apart t a c ac) (apart t b c bc) in
    (rest.0 ∙ step.0, rest.1 ∙ step.1, rest.2 ∙ step.2)

abbrev pub phase_name : HookPhase → List ℕ
phase_name pre_sync = codes "PreSync"
phase_name post_sync = codes "PostSync"
phase_name sync_fail = codes "SyncFail"

abbrev pub policy_name : HookDeletePolicy → List ℕ
policy_name hook_succeeded = codes "HookSucceeded"
policy_name hook_failed = codes "HookFailed"
policy_name before_hook_creation = codes "BeforeHookCreation"

abbrev pub names : Option String → List ℕ → Bool
names none t = false
names (some raw) t = contains (tokens raw) t

names_phase :
    (o : Option String) (phase : HookPhase)
    → has_phase (collected (codes "PreSync") (codes "PostSync") (codes "SyncFail") o) phase
      ≡ names o (phase_name phase)
names_phase none pre_sync = refl
names_phase none post_sync = refl
names_phase none sync_fail = refl
names_phase (some raw) pre_sync = (collect-contains _ _ _ empty_set (tokens raw) refl refl refl).0
names_phase (some raw) post_sync = (collect-contains _ _ _ empty_set (tokens raw) refl refl refl).1
names_phase (some raw) sync_fail = (collect-contains _ _ _ empty_set (tokens raw) refl refl refl).2

names_policy :
    (o : Option String) (policy : HookDeletePolicy)
    → has_policy
        (collected (codes "HookSucceeded") (codes "HookFailed") (codes "BeforeHookCreation") o)
        policy
      ≡ names o (policy_name policy)
names_policy none hook_succeeded = refl
names_policy none hook_failed = refl
names_policy none before_hook_creation = refl
names_policy (some raw) hook_succeeded =
    (collect-contains _ _ _ empty_set (tokens raw) refl refl refl).0
names_policy (some raw) hook_failed =
    (collect-contains _ _ _ empty_set (tokens raw) refl refl refl).1
names_policy (some raw) before_hook_creation =
    (collect-contains _ _ _ empty_set (tokens raw) refl refl refl).2

-- A manifest has a phase, or a delete policy, exactly if the name of that phase or policy is one of
-- the trimmed tokens between the commas of its annotation: Synchrotron's own if the
-- manifest has it, Argo's otherwise. Order, repetitions and other tokens do not matter.
pub parse_hooks-names :
    {Y : Yaml} (m : Manifest Y)
    → ((phase : HookPhase)
        → has_phase (parse_hook_phases m) phase
          ≡ names
              (or_else
                (annotation m "synchrotron.io/hook")
                (annotation m "argocd.argoproj.io/hook"))
              (phase_name phase))
      × ((policy : HookDeletePolicy)
          → has_policy (parse_hook_delete_policies m) policy
            ≡ names
                (or_else
                  (annotation m "synchrotron.io/hook-delete-policy")
                  (annotation m "argocd.argoproj.io/hook-delete-policy"))
                (policy_name policy))
unfolding parse_hook_phases parse_hook_delete_policies
parse_hooks-names m = (
  names_phase
      (or_else (annotation m "synchrotron.io/hook") (annotation m "argocd.argoproj.io/hook")),
  names_policy (
      or_else (annotation m "synchrotron.io/hook-delete-policy")
        (annotation m "argocd.argoproj.io/hook-delete-policy")),
)
