-- ===== src/Diff/Ignore.antt =====
-- crates/synchrotron-diff/src/ignore.rs: the rules that take changes out of a diff.
pub mod Pointer
use synchrotron.Base.{
  ℕ, ℕ_eq, List_eq, Bool, true, false, not, ◌&&◌, ◌||◌, List, [], ◌∷◌, ◌++◌, String, String_eq,
  ◌==◌, if◌then◌else◌, is_empty, filter, nat_eq,
}
use synchrotron.Base.Text.{codes, decimal, split_at}
use synchrotron.Manifest.{Yaml, Manifest, value}
use synchrotron.Diff.Paths.{Text, PathSegment, field, index, keyed, ValuePath, is_root}
use synchrotron.Diff.Tree.{Tree}
use synchrotron.Diff.Compare.{Change, path_of}
use synchrotron.Diff.ManagedFields.{path_owned_by_any}

pub data IgnoreRule : Type 0 where
  json_pointer : String → IgnoreRule
  path_glob : String → IgnoreRule
  manager_allowlist : List String → IgnoreRule

pub record IgnoreRules : Type 0 where
  pub rules : List IgnoreRule

-- `str::replace` of one character
unfoldable pub replace : ℕ → Text → Text → Text
replace c by [] = []
replace c by (d ∷ s) = let rest = replace c by s in if nat_eq d c then by ++ rest else d ∷ rest

unfoldable pub escape_pointer : Text → Text
unfolding replace
escape_pointer s = replace b'/' (codes "~1") (replace b'~' (codes "~0") s)

abbrev pub first_value : List (Text × Text) → Text
first_value [] = []
first_value ((k, v) ∷ keys) = v

abbrev write_token : PathSegment → Text
write_token (field name) = escape_pointer name
write_token (index i) = decimal i
write_token (keyed keys) = escape_pointer (first_value keys)

unfoldable pub write_tokens : List PathSegment → Text
write_tokens [] = []
write_tokens (seg ∷ segs) = b'/' ∷ write_token seg ++ write_tokens segs

unfoldable pub path_to_json_pointer : ValuePath → Text
unfolding write_tokens escape_pointer
path_to_json_pointer path = if is_root path then [] else write_tokens path.segments

abbrev pub glob_part_matches : Text → PathSegment → Bool
glob_part_matches p (field name) = p == codes "*" || p == name
glob_part_matches p (index i) = p == codes "*"
glob_part_matches p (keyed keys) = p == codes "*"

-- Part by part; as many parts as segments.
unfoldable pub glob_parts_match : List Text → List PathSegment → Bool
glob_parts_match [] [] = true
glob_parts_match (p ∷ pat) (seg ∷ segs) = glob_part_matches p seg && glob_parts_match pat segs
glob_parts_match _ _ = false

unfoldable pub path_glob_matches : String → ValuePath → Bool
unfolding glob_parts_match split_at
path_glob_matches glob path =
    glob_parts_match (if is_empty (codes glob) then [] else split_at b'.' (codes glob))
      path.segments

module _ {Y : Yaml} (T : Tree Y) where
  unfoldable pub rule_matches : IgnoreRule → ValuePath → Manifest Y → Bool
  unfolding path_to_json_pointer path_glob_matches path_owned_by_any
  rule_matches (json_pointer p) path live = path_to_json_pointer path == codes p
  rule_matches (path_glob g) path live = path_glob_matches g path
  rule_matches (manager_allowlist managers) path live =
      path_owned_by_any T path (value live.body) managers

  -- `matches`: the loop over the rules
  unfoldable pub any_matches : List IgnoreRule → ValuePath → Manifest Y → Bool
  unfolding rule_matches
  any_matches [] path live = false
  any_matches (rule ∷ rules) path live = rule_matches rule path live || any_matches rules path live

  -- `IgnoreRules::apply`
  unfoldable pub apply_rules :
      IgnoreRules → List (Change Y.Value) → Manifest Y → List (Change Y.Value)
  unfolding any_matches
  apply_rules rules diff live =
      if is_empty rules.rules
      then diff
      else filter (λ c. not (any_matches rules.rules (path_of c) live)) diff
