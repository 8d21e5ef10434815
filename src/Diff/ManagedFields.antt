-- ===== src/Diff/ManagedFields.antt =====
-- crates/synchrotron-diff/src/managed_fields.rs: which field manager owns a path, by the tree of field sets
-- in `metadata.managedFields`.
use synchrotron.Base.{
  Bool, true, false, ◌&&◌, ◌||◌, Option, none, some, List, [], ◌∷◌, ◌++◌, String, String_eq,
  if◌then◌else◌, is_empty, contains,
}
use synchrotron.Base.Options.{and_then}
use synchrotron.Base.Text.{codes, decimal}
use synchrotron.Manifest.{Yaml}
use synchrotron.Diff.Paths.{Text, PathSegment, field, index, keyed, ValuePath}
use synchrotron.Diff.Tree.{Shape, mapping, Tree, map_get}

write_pairs : Bool → List (Text × Text) → Text
write_pairs later [] = []
write_pairs later ((k, v) ∷ keys) =
    (if later then b',' ∷ [] else [])
    ++ b'"' ∷ k
    ++ codes "\":\""
    ++ v
    ++ b'"' ∷ write_pairs true keys

-- `f:<name>`, `i:<n>`, `k:<object>`
unfoldable pub candidate_key : PathSegment → Text
unfolding write_pairs
candidate_key (field name) = codes "f:" ++ name
candidate_key (index i) = codes "i:" ++ decimal i
candidate_key (keyed keys) = codes "k:{" ++ write_pairs false keys ++ codes "}"

module _ {Y : Yaml} (T : Tree Y) where
  -- What is no mapping counts as one without entries.
  abbrev has_no_entries : Shape Y.Value → Bool
  has_no_entries (mapping m) = is_empty m
  has_no_entries _ = true

  abbrev is_mapping : Shape Y.Value → Bool
  is_mapping (mapping m) = true
  is_mapping _ = false

  abbrev child_at : Shape Y.Value → Text → Option Y.Value
  child_at (mapping m) key = map_get Y.value_beq m (T.from_string key)
  child_at _ key = none

  unfoldable pub fields_v1_owns : Y.Value → List PathSegment → Bool
  unfolding map_get candidate_key
  fields_v1_owns node [] = is_mapping (T.shape node)
  fields_v1_owns node (head ∷ tail) = elim (child_at (T.shape node) (candidate_key head)) [
    | some child ↦ has_no_entries (T.shape child) || fields_v1_owns child tail
    | none ↦ false
  ]

  abbrev managed_entry : Y.Value → Option (String × Y.Value)
  managed_entry entry =
      and_then (and_then (Y.get entry "manager") Y.as_str)
        (λ manager. and_then (Y.get entry "fieldsV1") (λ fields_v1. some (manager, fields_v1)))

  abbrev kept : Option (String × Y.Value) → List (String × Y.Value) → List (String × Y.Value)
  kept none rest = rest
  kept (some entry) rest = entry ∷ rest

  filter_map : List Y.Value → List (String × Y.Value)
  filter_map [] = []
  filter_map (entry ∷ entries) = kept (managed_entry entry) (filter_map entries)

  abbrev items_or_none : Option (List Y.Value) → List Y.Value
  items_or_none none = []
  items_or_none (some items) = items

  unfoldable pub iter_managed_fields : Y.Value → List (String × Y.Value)
  unfolding filter_map
  iter_managed_fields live_body = filter_map (
      items_or_none (
        and_then (and_then (Y.get live_body "metadata") (λ m. Y.get m "managedFields"))
          Y.as_sequence))

  unfoldable pub first_owner : List (String × Y.Value) → List PathSegment → Option String
  unfolding fields_v1_owns
  first_owner [] segments = none
  first_owner ((manager, fields_v1) ∷ entries) segments =
      if fields_v1_owns fields_v1 segments then some manager else first_owner entries segments

  unfoldable pub owner_of : ValuePath → Y.Value → Option String
  unfolding first_owner iter_managed_fields
  owner_of path live_body = first_owner (iter_managed_fields live_body) path.segments

  unfoldable pub any_allowed : List (String × Y.Value) → List PathSegment → List String → Bool
  unfolding fields_v1_owns
  any_allowed [] segments allowed = false
  any_allowed ((manager, fields_v1) ∷ entries) segments allowed =
      (contains allowed manager && fields_v1_owns fields_v1 segments)
      || any_allowed entries segments allowed

  unfoldable pub path_owned_by_any : ValuePath → Y.Value → List String → Bool
  unfolding any_allowed iter_managed_fields
  path_owned_by_any path live_body allowed =
      any_allowed (iter_managed_fields live_body) path.segments allowed
