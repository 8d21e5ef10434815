-- ===== src/Diff/ListMap.antt =====
-- crates/synchrotron-diff/src/listmap.rs: which lists are maps by some of their elements' fields.
pub mod Defaults
use synchrotron.Base.{
  ℕ_eq, Bool, true, false, ◌&&◌, ◌||◌, Option, none, some, List, [], ◌∷◌, ◌++◌, String, ◌==◌,
  List_eq, if◌then◌else◌,
}
use synchrotron.Base.Map.{Map, get, insert}
use synchrotron.Base.Text.{codes, split_at}
use synchrotron.Manifest.{Gvk, Gvk_eq}
use synchrotron.Diff.Paths.{Text, PathSegment, field, index, keyed, ValuePath}

pub record ListMapKind : Type 0 where
  pub path_pattern : String
  pub keys : List String

pub record ListMapKeys : Type 0 where
  pub by_kind : Map Gvk (List ListMapKind)
  pub universal : List ListMapKind

abbrev pub no_list_maps : ListMapKeys
no_list_maps = record { by_kind = []; universal = [] }

abbrev pub rules_of : Option (List ListMapKind) → List ListMapKind
rules_of none = []
rules_of (some rules) = rules

-- `entry(gvk).or_default().push(kind_desc)`
unfoldable pub register : ListMapKeys → Gvk → ListMapKind → ListMapKeys
register me gvk desc = record me {
  by_kind = insert me.by_kind gvk (rules_of (get me.by_kind gvk) ++ desc ∷ []);
}

-- A dot stands before every segment but a leading field.
unfoldable pub render_segments : Bool → List PathSegment → Text
render_segments later [] = []
render_segments later (field name ∷ segs) =
    (if later then b'.' ∷ [] else []) ++ name ++ render_segments true segs
render_segments later (index i ∷ segs) = b'.' ∷ b'*' ∷ render_segments true segs
render_segments later (keyed keys ∷ segs) = b'.' ∷ b'*' ∷ render_segments true segs

unfoldable pub render_for_match : ValuePath → Text
unfolding render_segments
render_for_match path = render_segments false path.segments

-- Part by part; as many parts on either side.
unfoldable pub parts_match : List Text → List Text → Bool
parts_match [] [] = true
parts_match (p ∷ ps) (r ∷ rs) = (p == codes "*" || p == r) && parts_match ps rs
parts_match _ _ = false

unfoldable pub pattern_matches : String → Text → Bool
unfolding parts_match split_at
pattern_matches pattern' rendered =
    parts_match (split_at b'.' (codes pattern')) (split_at b'.' rendered)

-- The first rule that matches
unfoldable pub find_rule : Text → List ListMapKind → Option (List String)
unfolding pattern_matches
find_rule rendered [] = none
find_rule rendered (k ∷ rules) =
    if pattern_matches k.path_pattern rendered then some k.keys else find_rule rendered rules

abbrev pub or_else_keys : Option (List String) → Option (List String) → Option (List String)
or_else_keys none other = other
or_else_keys (some keys) other = some keys

-- The universal rules, those of the kind, those of the kind in any version, in this order.
unfoldable pub keys_for : ListMapKeys → Gvk → ValuePath → Option (List String)
unfolding find_rule render_for_match get
keys_for me gvk path =
    let rendered = render_for_match path in
    or_else_keys (find_rule rendered me.universal) (
      or_else_keys (find_rule rendered (rules_of (get me.by_kind gvk)))
        (find_rule rendered (rules_of (get me.by_kind (record gvk { version = "*" })))))
