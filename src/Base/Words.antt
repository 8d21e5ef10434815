-- ===== src/Base/Words.antt =====
-- `split_whitespace` of `str`, and texts without whitespace.
use Prim.Native.Nat.{ℕ}
use mathlib.Core.Path.{◌≡◌, refl, ap, ◌∙◌}
use mathlib.Core.Bool.{Bool, true, false, not}
use mathlib.Core.List.{List, [], ◌∷◌, ◌++◌}
use synchrotron.Base.Tests.{if◌then◌else◌}
use synchrotron.Base.Lists.{All, filter, is_empty}
use synchrotron.Base.Text.{is_whitespace, trim_start, trim_end, trim, shut}

abbrev push_front : ℕ → List (List ℕ) → List (List ℕ)
push_front c [] = (c ∷ []) ∷ []
push_front c (t ∷ ts) = (c ∷ t) ∷ ts

-- `split` at the characters that pass the test
unfoldable pub split_by : (ℕ → Bool) → List ℕ → List (List ℕ)
split_by p [] = [] ∷ []
split_by p (c ∷ cs) = let rest = split_by p cs in if p c then [] ∷ rest else push_front c rest

unfoldable pub split_whitespace : List ℕ → List (List ℕ)
unfolding split_by
split_whitespace cs = filter (λ t. not (is_empty t)) (split_by is_whitespace cs)

-- No character is whitespace.
abbrev pub IsVisible : List ℕ → Type 0
IsVisible = All (λ c. is_whitespace c ≡ false)

split_by-append :
    (p : ℕ → Bool) (part : List ℕ) (c : ℕ) (cs : List ℕ)
    → All (λ x. p x ≡ false) part
    → p c ≡ true
    → split_by p (part ++ c ∷ cs) ≡ part ∷ split_by p cs
unfolding split_by
split_by-append p [] c cs h e = rw e refl
split_by-append p (x ∷ part) c cs h e = rw (h.0, split_by-append p part c cs h.1 e) refl

split_by-whole :
    (p : ℕ → Bool) (part : List ℕ) → All (λ x. p x ≡ false) part → split_by p part ≡ part ∷ []
unfolding split_by
split_by-whole p [] h = refl
split_by-whole p (x ∷ part) h = rw (h.0, split_by-whole p part h.1) refl

-- Three words that a space parts
pub split_whitespace-three :
    (a : ℕ) (ar : List ℕ) (b : ℕ) (br : List ℕ) (c : ℕ) (cs : List ℕ)
    → IsVisible (a ∷ ar)
    → IsVisible (b ∷ br)
    → IsVisible (c ∷ cs)
    → split_whitespace ((a ∷ ar) ++ 32 ∷ ((b ∷ br) ++ 32 ∷ c ∷ cs))
      ≡ (a ∷ ar) ∷ (b ∷ br) ∷ (c ∷ cs) ∷ []
unfolding split_whitespace is_whitespace
split_whitespace-three a ar b br c cs ha hb hc = ap (filter (λ t. not (is_empty t))) (
    split_by-append is_whitespace (a ∷ ar) 32 _ ha refl
    ∙ ap (λ l. (a ∷ ar) ∷ l)
        (split_by-append is_whitespace (b ∷ br) 32 (c ∷ cs) hb refl
          ∙ ap (λ l. (b ∷ br) ∷ l) (split_by-whole is_whitespace (c ∷ cs) hc)))

shut-append : (x : ℕ) (xs : List ℕ) (y : ℕ) (ys : List ℕ) → shut x (xs ++ y ∷ ys) ≡ x ∷ xs ++ y ∷ ys
shut-append x [] y ys = refl
shut-append x (z ∷ xs) y ys = refl

trim_end-visible : (cs : List ℕ) → IsVisible cs → trim_end cs ≡ cs
unfolding trim_end
trim_end-visible [] h = refl
trim_end-visible (c ∷ []) h = rw (h.0) refl
trim_end-visible (c ∷ d ∷ cs) h = ap (shut c) (trim_end-visible (d ∷ cs) h.1)

trim_end-append :
    (xs : List ℕ) (y : ℕ) (ys : List ℕ)
    → IsVisible (y ∷ ys)
    → trim_end (xs ++ y ∷ ys) ≡ xs ++ y ∷ ys
unfolding trim_end
trim_end-append [] y ys h = trim_end-visible (y ∷ ys) h
trim_end-append (x ∷ xs) y ys h = ap (shut x) (trim_end-append xs y ys h) ∙ shut-append x xs y ys

-- A text with a visible character in front and a visible end is not trimmed.
pub trim_visible :
    (x : ℕ) (xs : List ℕ) (y : ℕ) (ys : List ℕ)
    → is_whitespace x ≡ false
    → IsVisible (y ∷ ys)
    → trim ((x ∷ xs) ++ y ∷ ys) ≡ (x ∷ xs) ++ y ∷ ys
unfolding trim trim_start
trim_visible x xs y ys h v = rw h (trim_end-append (x ∷ xs) y ys v)
