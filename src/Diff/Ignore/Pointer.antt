-- ===== src/Diff/Ignore/Pointer.antt =====
-- The JSON pointers of crates/synchrotron-diff/src/ignore.rs against a reader of RFC 6901.
use mathlib.Core.List.{append-nil}
use synchrotron.Base.{
  ℕ, ◌<◌, ◌≡◌, ◌∙◌, refl, ap, ap₂, is_empty, Bool, true, false, List, [], ◌∷◌, ◌++◌, arith,
  if◌then◌else◌, nat_eq, All, map,
}
use synchrotron.Base.Text.{
  decimal, decimal-AllDigits, IsDigit, split_at, split_at-append, split_at-whole,
}
use synchrotron.Diff.Paths.{Text, PathSegment, field, index, keyed, ValuePath}
use synchrotron.Diff.Ignore.{
  escape_pointer, first_value, write_token, write_tokens, path_to_json_pointer,
}

-- `~1` stands for `/` and `~0` for `~`; `after` tells whether a `~` was just read.
read_from : Bool → Text → Text
read_from false [] = []
read_from true [] = b'~' ∷ []
read_from false (c ∷ s) =
    let escaped = read_from true s in
    let plain = c ∷ read_from false s in if nat_eq c b'~' then escaped else plain
read_from true (c ∷ s) =
    let rest = read_from false s in
    if nat_eq c b'1' then b'/' ∷ rest else if nat_eq c b'0' then b'~' ∷ rest else b'~' ∷ c ∷ rest

-- The reference tokens that stand after the slashes.
pub read_pointer : Text → List Text
unfolding read_from split_at
read_pointer [] = []
read_pointer (c ∷ s) = map (read_from false) (split_at b'/' s)

-- The token of a segment: a name, an index, the value of the first key.
abbrev pub token : PathSegment → Text
token (field name) = name
token (index i) = decimal i
token (keyed keys) = first_value keys

abbrev HasNo : ℕ → Text → Type 0
HasNo c s = All (λ d. nat_eq d c ≡ false) s

read-escape_pointer : (s : Text) → read_from false (escape_pointer s) ≡ s
unfolding read_from escape_pointer
read-escape_pointer [] = refl
read-escape_pointer (c ∷ s) = ground (arith, read-escape_pointer s)

escape_pointer-HasNo : (s : Text) → HasNo b'/' (escape_pointer s)
unfolding escape_pointer
escape_pointer-HasNo [] = tt
escape_pointer-HasNo (c ∷ s) = ground (arith, escape_pointer-HasNo s)

read-HasNo : (s : Text) → HasNo b'~' s → read_from false s ≡ s
unfolding read_from
read-HasNo [] h = refl
read-HasNo (c ∷ s) h = ground (arith, read-HasNo s h.1)

digit-HasNo : (c : ℕ) → c < b'0' → (s : Text) → All IsDigit s → HasNo c s
digit-HasNo c small [] h = tt
digit-HasNo c small (d ∷ s) h = (ground (arith, h.0.0), digit-HasNo c small s h.1)

slash_lt_digits : b'/' < b'0'
slash_lt_digits = omega arith

write_token-HasNo : (seg : PathSegment) → HasNo b'/' (write_token seg)
write_token-HasNo (field name) = escape_pointer-HasNo name
write_token-HasNo (index i) = digit-HasNo b'/' (omega arith) (decimal i) (decimal-AllDigits i)
write_token-HasNo (keyed keys) = escape_pointer-HasNo (first_value keys)

tilde-HasNo : (s : Text) → All IsDigit s → HasNo b'~' s
tilde-HasNo [] h = tt
tilde-HasNo (d ∷ s) h = (ground (arith, h.0.1), tilde-HasNo s h.1)

read-write_token : (seg : PathSegment) → read_from false (write_token seg) ≡ token seg
read-write_token (field name) = read-escape_pointer name
read-write_token (index i) = read-HasNo (decimal i) (tilde-HasNo (decimal i) (decimal-AllDigits i))
read-write_token (keyed keys) = read-escape_pointer (first_value keys)

split_tokens :
    (t : Text) (segs : List PathSegment)
    → HasNo b'/' t
    → split_at b'/' (t ++ write_tokens segs) ≡ t ∷ map write_token segs
unfolding write_tokens
split_tokens t [] h = ap (split_at b'/') (append-nil t) ∙ split_at-whole b'/' t h
split_tokens t (seg ∷ segs) h =
    split_at-append b'/' t (write_token seg ++ write_tokens segs) h
    ∙ ap (λ l. t ∷ l) (split_tokens (write_token seg) segs (write_token-HasNo seg))

read_tokens :
    (segs : List PathSegment) → map (read_from false) (map write_token segs) ≡ map token segs
read_tokens [] = refl
read_tokens (seg ∷ segs) = ap₂ ◌∷◌ (read-write_token seg) (read_tokens segs)

-- The pointer that is written for a path is read back, by the rules of RFC 6901, as the path's
-- tokens, one for each segment, whatever `/` and `~` the names hold.
pub read-path_to_json_pointer :
    (path : ValuePath) → read_pointer (path_to_json_pointer path) ≡ map token path.segments
unfolding path_to_json_pointer read_pointer
read-path_to_json_pointer path = go path.segments
  where
    go :
        (segs : List PathSegment)
        → read_pointer (if is_empty segs then [] else write_tokens segs) ≡ map token segs
    go [] = refl
    go (seg ∷ segs) =
        ap (map (read_from false)) (split_tokens (write_token seg) segs (write_token-HasNo seg))
        ∙ read_tokens (seg ∷ segs)
