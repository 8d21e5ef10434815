-- ===== src/Diff/Paths.antt =====
-- crates/synchrotron-diff/src/path.rs: paths into manifest bodies. A text that is built or taken apart is
-- the list of its code points, `Text`.
use synchrotron.Base.{ℕ, Bool, true, false, List, [], ◌∷◌, ◌++◌, is_empty, if◌then◌else◌}
use synchrotron.Base.Text.{decimal}

abbrev pub Text : Type 0
Text = List ℕ

pub data PathSegment : Type 0 where
  field : Text → PathSegment
  index : ℕ → PathSegment
  keyed : List (Text × Text) → PathSegment

pub record ValuePath : Type 0 where
  pub segments : List PathSegment

abbrev pub root : ValuePath
root = record { segments = [] }

-- `push`, on a clone
abbrev pub push : ValuePath → PathSegment → ValuePath
push path seg = record { segments = path.segments ++ seg ∷ [] }

abbrev pub is_root : ValuePath → Bool
is_root path = is_empty path.segments

-- `{k}={v}`, with a comma before each but the first
write_keys : Bool → List (Text × Text) → Text
write_keys later [] = []
write_keys later ((k, v) ∷ keys) =
    (if later then b',' ∷ [] else []) ++ k ++ b'=' ∷ v ++ write_keys true keys

write_segment : Bool → PathSegment → Text
unfolding write_keys
write_segment later (field name) = (if later then b'.' ∷ [] else []) ++ name
write_segment later (index i) = b'[' ∷ decimal i ++ b']' ∷ []
write_segment later (keyed keys) = b'[' ∷ write_keys false keys ++ b']' ∷ []

write_segments : Bool → List PathSegment → Text
unfolding write_segment
write_segments later [] = []
write_segments later (seg ∷ segs) = write_segment later seg ++ write_segments true segs

-- `Display for ValuePath`
unfoldable pub display : ValuePath → Text
unfolding write_segments
display path = if is_root path then b'.' ∷ [] else write_segments false path.segments
