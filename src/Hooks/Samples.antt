-- ===== src/Hooks/Samples.antt =====
-- Tests of the hooks' annotations, and the theorems on hooks at concrete inputs.
use synchrotron.Base.{◌≡◌, String, String_eq, refl, true, false, not, [], ◌∷◌, filter, map}
use synchrotron.Base.Text.{split_at, trim, trim_start, trim_end, is_whitespace}
use synchrotron.Manifest.{Manifest, value}
use synchrotron.Manifest.Samples.{Sample, Node, null, str, field, core}
use synchrotron.Hooks.{
  HookPhase, has_phase, tokens, collect, annotation, parse_hook_phases, split_hooks,
  hooks_for_phase,
}
use synchrotron.Hooks.Partition.{is_hook, hook_of, split_hooks-filter}

abbrev annotated : String → String → Node
annotated key text = field "metadata" (field "annotations" (field key (str text) null) null) null

abbrev migration : Manifest Sample
migration = core 1 "Job" "migration" (annotated "argocd.argoproj.io/hook" "SyncFail, PreSync ,Sync")

abbrev workload : Manifest Sample
workload = core 2 "Job" "workload" (annotated "synchrotron.io/hook" "Sync,,presync")

migration_phases :
    parse_hook_phases migration ≡ record { first = true; second = false; third = true }
unfolding parse_hook_phases annotation tokens split_at collect trim trim_start trim_end
    is_whitespace value
migration_phases = refl

workload_phases :
    parse_hook_phases workload ≡ record { first = false; second = false; third = false }
unfolding parse_hook_phases annotation tokens split_at collect trim trim_start trim_end
    is_whitespace value
workload_phases = refl

split_hooks-filter_example :
    ((split_hooks (workload ∷ migration ∷ [])).non_hook
      ≡ filter (λ m. not (is_hook m)) (workload ∷ migration ∷ []))
    × ((split_hooks (workload ∷ migration ∷ [])).hooks
        ≡ map hook_of (filter is_hook (workload ∷ migration ∷ [])))
    × ((phase : HookPhase)
        → hooks_for_phase (split_hooks (workload ∷ migration ∷ [])).hooks phase
          ≡ map hook_of
              (filter (λ m. has_phase (parse_hook_phases m) phase) (workload ∷ migration ∷ [])))
split_hooks-filter_example = split_hooks-filter (workload ∷ migration ∷ [])
