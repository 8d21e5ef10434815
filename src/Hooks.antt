-- ===== src/Hooks.antt =====
-- crates/synchrotron-reconcile/src/hooks.rs: which manifests are sync hooks, and for which phases. A text is
-- the list of its code points where it is split.
pub mod Partition
pub mod Samples
use synchrotron.Base.{
  ℕ, ℕ_eq, List_eq, Bool, true, false, not, ◌&&◌, Option, none, some, List, [], ◌∷◌, ◌++◌, String,
  ◌==◌, if◌then◌else◌, is_empty, filter, map, nat_eq,
}
use synchrotron.Base.Options.{and_then, or_else}
use synchrotron.Base.Text.{codes, trim, split_at}
use synchrotron.Manifest.{Yaml, Manifest, value}

pub data HookPhase : Type 0 where
  pre_sync post_sync sync_fail : HookPhase

pub data HookDeletePolicy : Type 0 where
  hook_succeeded hook_failed before_hook_creation : HookDeletePolicy

-- A set of the three values of either type, by membership.
pub record Set3 : Type 0 where
  pub first : Bool
  pub second : Bool
  pub third : Bool

abbrev pub empty_set : Set3
empty_set = record { first = false; second = false; third = false }

abbrev pub set_is_empty : Set3 → Bool
set_is_empty s = not s.first && not s.second && not s.third

abbrev pub has_phase : Set3 → HookPhase → Bool
has_phase s pre_sync = s.first
has_phase s post_sync = s.second
has_phase s sync_fail = s.third

abbrev pub has_policy : Set3 → HookDeletePolicy → Bool
has_policy s hook_succeeded = s.first
has_policy s hook_failed = s.second
has_policy s before_hook_creation = s.third

-- `.map(str::trim).filter(|t| !t.is_empty())`
unfoldable pub tokens : String → List (List ℕ)
unfolding split_at
tokens raw = filter (λ t. not (is_empty t)) (map trim (split_at b',' (codes raw)))

-- The loop over the tokens, for the three names that count; any other token is passed over.
unfoldable pub collect : List ℕ → List ℕ → List ℕ → Set3 → List (List ℕ) → Set3
collect a b c out [] = out
collect a b c out (t ∷ ts) =
    collect a b c
      (if t == a
        then record out { first = true }
        else if t == b
        then record out { second = true }
        else if t == c
        then record out { third = true }
        else out)
      ts

abbrev pub collected : List ℕ → List ℕ → List ℕ → Option String → Set3
collected a b c none = empty_set
collected a b c (some raw) = collect a b c empty_set (tokens raw)

module _ {Y : Yaml} where
  unfoldable pub annotation : Manifest Y → String → Option String
  annotation m key =
      and_then
        (and_then
          (and_then (Y.get (value m.body) "metadata") (λ metadata. Y.get metadata "annotations"))
          (λ annotations. Y.get annotations key))
        Y.as_str

  unfoldable pub parse_hook_phases : Manifest Y → Set3
  unfolding annotation collect tokens
  parse_hook_phases m =
      collected (codes "PreSync") (codes "PostSync") (codes "SyncFail")
        (or_else (annotation m "synchrotron.io/hook") (annotation m "argocd.argoproj.io/hook"))

  unfoldable pub parse_hook_delete_policies : Manifest Y → Set3
  unfolding annotation collect tokens
  parse_hook_delete_policies m =
      collected (codes "HookSucceeded") (codes "HookFailed") (codes "BeforeHookCreation") (
        or_else (annotation m "synchrotron.io/hook-delete-policy")
          (annotation m "argocd.argoproj.io/hook-delete-policy"))

pub record Hook (Y : Yaml) : Type 0 where
  pub manifest : Manifest Y
  pub phases : Set3
  pub delete_policies : Set3

pub record HookSplit (Y : Yaml) : Type 0 where
  pub non_hook : List (Manifest Y)
  pub hooks : List (Hook Y)

module _ {Y : Yaml} where
  -- The loop over the manifests, with what is split so far.
  unfoldable pub split_from : HookSplit Y → List (Manifest Y) → HookSplit Y
  unfolding parse_hook_phases parse_hook_delete_policies
  split_from split [] = split
  split_from split (m ∷ ms) =
      split_from
        (if set_is_empty (parse_hook_phases m)
          then record split { non_hook = split.non_hook ++ m ∷ [] }
          else record split {
            hooks =
                split.hooks
                ++ record {
                  manifest = m;
                  phases = parse_hook_phases m;
                  delete_policies = parse_hook_delete_policies m;
                }
                  ∷ [];
          })
        ms

  unfoldable pub split_hooks : List (Manifest Y) → HookSplit Y
  unfolding split_from
  split_hooks ms = split_from (record { non_hook = []; hooks = [] }) ms

  unfoldable pub hooks_for_phase : List (Hook Y) → HookPhase → List (Hook Y)
  hooks_for_phase hooks phase = filter (λ h. has_phase h.phases phase) hooks
