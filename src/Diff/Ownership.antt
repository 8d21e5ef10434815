-- ===== src/Diff/Ownership.antt =====
-- crates/synchrotron-diff/src/ownership.rs: the division of a diff by the owner of the changed fields.
use synchrotron.Base.{
  ℕ, ◌+◌, Bool, true, false, not, Option, none, some, List, [], ◌∷◌, String, String_eq, ◌==◌,
  length, is_empty,
}
use synchrotron.Manifest.{Yaml, Manifest, value}
use synchrotron.Diff.Tree.{Tree}
use synchrotron.Diff.Compare.{Change, path_of}
use synchrotron.Diff.ManagedFields.{owner_of}

pub record FieldOwnershipFilter : Type 0 where
  pub our_manager : String

pub record FilteredDiff (V : Type 0) : Type 0 where
  pub drift : List (Change V)
  pub informational : List (Change V)

abbrev pub has_drift : {V : Type 0} → FilteredDiff V → Bool
has_drift d = not (is_empty d.drift)

abbrev pub total_changes : {V : Type 0} → FilteredDiff V → ℕ
total_changes d = length d.drift + length d.informational

-- A change of a field that we own, or that nobody owns.
abbrev pub is_ours : String → Option String → Bool
is_ours our_manager (some m) = m == our_manager
is_ours our_manager none = true

module _ {V : Type 0} where
  abbrev sorted_into : Bool → Change V → FilteredDiff V → FilteredDiff V
  sorted_into true change rest = record rest { drift = change ∷ rest.drift }
  sorted_into false change rest = record rest { informational = change ∷ rest.informational }

module _ {Y : Yaml} (T : Tree Y) where
  -- The changes in turn, each pushed to one of the two lists.
  unfoldable pub partition_changes : String → Y.Value → List (Change Y.Value) → FilteredDiff Y.Value
  unfolding owner_of
  partition_changes our_manager body [] = record { drift = []; informational = [] }
  partition_changes our_manager body (change ∷ changes) =
      sorted_into (is_ours our_manager (owner_of T (path_of change) body)) change
        (partition_changes our_manager body changes)

  -- `FieldOwnershipFilter::apply`
  unfoldable pub apply_ownership :
      FieldOwnershipFilter → List (Change Y.Value) → Manifest Y → FilteredDiff Y.Value
  unfolding partition_changes
  apply_ownership filter' diff live = partition_changes filter'.our_manager (value live.body) diff
