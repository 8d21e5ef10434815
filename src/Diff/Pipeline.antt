-- ===== src/Diff/Pipeline.antt =====
-- crates/synchrotron-diff/src/pipeline.rs and applier.rs beside it: the tiers of the smart diff, one after
-- the other. `normalize` is what the API server answers to the dry run.
pub mod Partition
pub mod Autoscaled
pub mod Samples
use synchrotron.Base.{[], String}
use synchrotron.Base.Result.{Result, ok, ◌>>=◌}
use synchrotron.Manifest.{Yaml, Manifest}
use synchrotron.Diff.Tree.{Tree}
use synchrotron.Diff.ListMap.{ListMapKeys}
use synchrotron.Diff.ListMap.Defaults.{defaults}
use synchrotron.Diff.Compare.{diff}
use synchrotron.Diff.Ignore.{IgnoreRules, apply_rules}
use synchrotron.Diff.Ownership.{FieldOwnershipFilter, FilteredDiff, apply_ownership}
use synchrotron.Diff.AutoIgnore.{ScalerCache, target_of, auto_ignore_rules_for}

pub data DryRunError : Type 0 where
  server : String → DryRunError
  transport : String → DryRunError
  decode : String → DryRunError

pub record SmartDiffPipeline (Y : Yaml) : Type 0 where
  pub normalize : Manifest Y → Result (Manifest Y) DryRunError
  pub list_maps : ListMapKeys
  pub user_rules : IgnoreRules
  pub ownership : FieldOwnershipFilter

module _ {Y : Yaml} (T : Tree Y) where
  -- `SmartDiffPipeline::new`
  unfoldable pub new_pipeline :
      (Manifest Y → Result (Manifest Y) DryRunError) → String → SmartDiffPipeline Y
  new_pipeline normalize field_manager = record {
    normalize = normalize;
    list_maps = defaults;
    user_rules = record { rules = [] };
    ownership = record { our_manager = field_manager };
  }

  unfoldable pub evaluate :
      SmartDiffPipeline Y
      → (desired live : Manifest Y) → ScalerCache
      → Result (FilteredDiff Y.Value) DryRunError
  evaluate p desired live scaler_cache = do
    normalized ← p.normalize desired
    let raw = diff T normalized live p.list_maps
    let auto_rules = auto_ignore_rules_for (target_of live) scaler_cache
    let after_auto = apply_rules T auto_rules raw live
    let after_user = apply_rules T p.user_rules after_auto live
    ok (apply_ownership T p.ownership after_user live)
