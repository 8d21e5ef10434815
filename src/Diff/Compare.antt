-- ===== src/Diff/Compare.antt =====
-- crates/synchrotron-diff/src/compare.rs: the structural comparison. What a function of the source pushes to
-- `out` is the list that it returns. The recursion is on fuel, as much as the desired value is deep.
pub mod Keyed
pub mod Reflexive
use synchrotron.Base.{
  ℕ, zero, suc, ◌+◌, ℕ_eq, Bool, true, false, Option, none, some, List, [], ◌∷◌, ◌++◌, String, ◌==◌,
  List_eq, Pair_eq, if◌then◌else◌, is_empty, map,
}
use synchrotron.Base.Text.{codes, trim}
use synchrotron.Manifest.{Yaml, Manifest, value}
use synchrotron.Diff.Paths.{Text, field, index, keyed, ValuePath, root, push}
use synchrotron.Diff.Tree.{
  Shape, null, boolean, number, string, sequence, mapping, Tree, map_get, contains_key,
}
use synchrotron.Diff.ListMap.{ListMapKeys, keys_for}

pub data Change (V : Type 0) : Type 0 where
  added : (path : ValuePath) (desired : V) → Change V
  removed : (path : ValuePath) (live : V) → Change V
  modified : (path : ValuePath) (desired live : V) → Change V

abbrev pub path_of : {V : Type 0} → Change V → ValuePath
path_of (added path desired) = path
path_of (removed path live) = path
path_of (modified path desired live) = path

module _ {Y : Yaml} (T : Tree Y) where
  abbrev bool_text : Bool → Text
  bool_text true = codes "true"
  bool_text false = codes "false"

  abbrev pub scalar_to_string : Y.Value → Text
  scalar_to_string v = elim (T.shape v) [
    | string s ↦ s
    | number n ↦ n
    | boolean b ↦ bool_text b
    | null ↦ codes "null"
    | _ ↦ trim (T.print v)
  ]

  abbrev text_or_default : Option Y.Value → Text
  text_or_default none = []
  text_or_default (some v) = scalar_to_string v

  unfoldable pub extract_keys : Y.Value → List String → List (Text × Text)
  unfolding trim
  extract_keys v [] = []
  extract_keys v (k ∷ keys) = (codes k, text_or_default (Y.get v k)) ∷ extract_keys v keys

  abbrev excluded : List String
  excluded =
      "resourceVersion" ∷ "uid" ∷ "generation" ∷ "creationTimestamp" ∷ "managedFields" ∷ "selfLink"
      ∷ []

  remove_all : List (Y.Value × Y.Value) → List String → List (Y.Value × Y.Value)
  remove_all m [] = m
  remove_all m (k ∷ ks) = remove_all (T.remove m k) ks

  -- What `get_mut` has found is changed where it stands.
  put_at : List (Y.Value × Y.Value) → Y.Value → Y.Value → List (Y.Value × Y.Value)
  put_at [] k v = []
  put_at ((j, w) ∷ m) k v = if Y.value_beq j k then (j, v) ∷ m else (j, w) ∷ put_at m k v

  strip_metadata : List (Y.Value × Y.Value) → Option Y.Value → List (Y.Value × Y.Value)
  unfolding remove_all put_at
  strip_metadata m none = m
  strip_metadata m (some meta) = elim (T.shape meta) [
    | mapping fields ↦
        put_at m (T.from_string (codes "metadata")) (T.from_mapping (remove_all fields excluded))
    | _ ↦ m
  ]

  unfoldable pub strip_excluded : Y.Value → Y.Value
  unfolding strip_metadata
  strip_excluded body = elim (T.shape body) [
    | mapping m ↦ T.from_mapping (
        T.remove (strip_metadata m (map_get Y.value_beq m (T.from_string (codes "metadata"))))
          "status")
    | _ ↦ body
  ]

  abbrev pub Differ : Type 0
  Differ = Y.Value → Y.Value → ValuePath → List (Change Y.Value)

  abbrev key_or_debug : Y.Value → Option String → Text
  key_or_debug k (some s) = codes s
  key_or_debug k none = T.debug k

  abbrev pub at_key : ValuePath → Y.Value → ValuePath
  at_key path k = push path (field (key_or_debug k (Y.as_str k)))

  -- One desired value against the live value in its place, if there is one.
  abbrev pub against : Differ → Y.Value → Option Y.Value → ValuePath → List (Change Y.Value)
  against rec dv (some lv) child = rec dv lv child
  against rec dv none child = added child dv ∷ []

  unfoldable pub diff_fields :
      Differ → (desired live : List (Y.Value × Y.Value)) → ValuePath → List (Change Y.Value)
  diff_fields rec [] live path = []
  diff_fields rec ((k, dv) ∷ desired) live path =
      against rec dv (map_get Y.value_beq live k) (at_key path k)
      ++ diff_fields rec desired live path

  unfoldable pub removed_fields :
      (desired live : List (Y.Value × Y.Value)) → ValuePath → List (Change Y.Value)
  removed_fields desired [] path = []
  removed_fields desired ((k, lv) ∷ live) path =
      let rest = removed_fields desired live path in
      if contains_key Y.value_beq desired k then rest else removed (at_key path k) lv ∷ rest

  -- From the index `i` on.
  unfoldable pub diff_positional :
      Differ → ℕ → (desired live : List Y.Value) → ValuePath → List (Change Y.Value)
  diff_positional rec i [] [] path = []
  diff_positional rec i (d ∷ ds) (l ∷ ls) path =
      rec d l (push path (index i)) ++ diff_positional rec (i + 1) ds ls path
  diff_positional rec i (d ∷ ds) [] path =
      added (push path (index i)) d ∷ diff_positional rec (i + 1) ds [] path
  diff_positional rec i [] (l ∷ ls) path =
      removed (push path (index i)) l ∷ diff_positional rec (i + 1) [] ls path

  abbrev pub passed :
      Bool × Y.Value
      → Option (Y.Value × List (Bool × Y.Value))
      → Option (Y.Value × List (Bool × Y.Value))
  passed x none = none
  passed x (some (l, live)) = some (l, x ∷ live)

  -- `matched_live`: each live element with its flag. The first that is free and has the keys is
  -- taken.
  unfoldable pub take_match :
      List String
      → List (Text × Text)
      → List (Bool × Y.Value)
      → Option (Y.Value × List (Bool × Y.Value))
  unfolding extract_keys
  take_match keys pairs [] = none
  take_match keys pairs ((matched, l) ∷ live) =
      let later = passed (matched, l) (take_match keys pairs live) in
      if matched
      then later
      else if extract_keys l keys == pairs
      then some (l, (true, l) ∷ live)
      else later

  unfoldable pub removed_items :
      List String → List (Bool × Y.Value) → ValuePath → List (Change Y.Value)
  unfolding extract_keys
  removed_items keys [] path = []
  removed_items keys ((matched, l) ∷ live) path =
      let rest = removed_items keys live path in
      if matched then rest else removed (push path (keyed (extract_keys l keys))) l ∷ rest

  -- The desired elements in turn, and at the end the live elements that none of them took.
  unfoldable pub diff_items :
      Differ
      → List String
      → List Y.Value
      → List (Bool × Y.Value)
      → ValuePath
      → List (Change Y.Value)
  unfolding take_match removed_items extract_keys
  diff_items rec keys [] live path = removed_items keys live path
  diff_items rec keys (d ∷ desired) live path =
      let child = push path (keyed (extract_keys d keys)) in
      elim (take_match keys (extract_keys d keys) live) [
        | some (l, live') ↦ rec d l child ++ diff_items rec keys desired live' path
        | none ↦ added child d ∷ diff_items rec keys desired live path
      ]

  unfoldable pub diff_listmap :
      Differ → List String → (desired live : List Y.Value) → ValuePath → List (Change Y.Value)
  unfolding diff_items
  diff_listmap rec keys desired live path =
      diff_items rec keys desired (map (λ l. (false, l)) live) path

  abbrev pub unlike : Y.Value → Y.Value → ValuePath → List (Change Y.Value)
  unlike desired live path =
      if Y.value_beq desired live then [] else modified path desired live ∷ []

  -- `list_maps` is `keys_for` at the kind of the manifest.
  module _ (list_maps : ValuePath → Option (List String)) where
    abbrev pub diff_lists :
        Differ
        → Option (List String)
        → (desired live : List Y.Value) → ValuePath
        → List (Change Y.Value)
    diff_lists rec (some keys) d l path = diff_listmap rec keys d l path
    diff_lists rec none d l path = diff_positional rec 0 d l path

    abbrev pub diff_shapes :
        Differ → (d l : Shape Y.Value) (desired live : Y.Value) → ValuePath → List (Change Y.Value)
    diff_shapes rec (mapping d) (mapping l) desired live path =
        diff_fields rec d l path ++ removed_fields d l path
    diff_shapes rec (sequence d) (sequence l) desired live path =
        diff_lists rec (list_maps path) d l path
    diff_shapes rec _ _ desired live path = unlike desired live path

    unfoldable pub diff_value : ℕ → Differ
    unfolding diff_fields removed_fields diff_listmap diff_positional
    diff_value zero desired live path = unlike desired live path
    diff_value (suc fuel) desired live path =
        diff_shapes (diff_value fuel) (T.shape desired) (T.shape live) desired live path

  unfoldable pub diff : (desired live : Manifest Y) → ListMapKeys → List (Change Y.Value)
  unfolding diff_value strip_excluded
  diff desired live list_maps =
      let body = strip_excluded (value desired.body) in
      diff_value (keys_for list_maps desired.gvk) (suc (T.rank body)) body
        (strip_excluded (value live.body)) root

  unfoldable pub manifests_equivalent : (desired live : Manifest Y) → ListMapKeys → Bool
  unfolding diff
  manifests_equivalent desired live list_maps = is_empty (diff desired live list_maps)
