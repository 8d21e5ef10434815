-- ===== src/Base/Text.antt =====
-- What the source uses of `str`: `trim` and `parse` of signed integers. A text that is walked is the list
-- of its code points.
use Prim.Native.Nat.{ℕ, zero, suc, ◌+◌, ◌-◌, ◌*◌, ◌/◌, ◌%◌, ◌^◌, ◌<◌, ◌≤◌}
use Prim.Native.Char.{code}
use Prim.Native.String.{String}
use mathlib.Core.Path.{◌≡◌, refl, ap, ◌∙◌}
use mathlib.Core.Logic.{inl, inr}
use native.Mathlib.Omega.{arith}
use mathlib.Core.Bool.{Bool, true, false, ◌&&◌, ◌||◌}
use mathlib.Core.Option.{Option, none, some}
use mathlib.Core.List.{List, [], ◌∷◌, ◌++◌}
use synchrotron.Base.Tests.{leb, ltb, nat_eq, Bool-cases, ltb→lt, if◌then◌else◌, if_cases}
use synchrotron.Base.Lists.{All, append-All}
use synchrotron.Base.Int.{ℤ, pos, negsuc}

abbrev pub codes : String → List ℕ
codes String.[] = []
codes (String.◌∷◌ c s) = code c ∷ codes s

abbrev between : ℕ → ℕ → ℕ → Bool
between low high c = leb low c && leb c high

-- `char::is_whitespace`: the property White_Space.
unfoldable pub is_whitespace : ℕ → Bool
is_whitespace c =
    between 9 13 c
    || nat_eq c 32
    || nat_eq c 0x85
    || nat_eq c 0xa0
    || nat_eq c 0x1680
    || between 0x2000 0x200a c
    || nat_eq c 0x2028
    || nat_eq c 0x2029
    || nat_eq c 0x202f
    || nat_eq c 0x205f
    || nat_eq c 0x3000

unfoldable pub trim_start : List ℕ → List ℕ
unfolding is_whitespace
trim_start [] = []
trim_start (c ∷ cs) = let rest = trim_start cs in if is_whitespace c then rest else c ∷ cs

-- A whitespace is dropped if all after it was.
abbrev pub shut : ℕ → List ℕ → List ℕ
shut c [] = if is_whitespace c then [] else c ∷ []
shut c (d ∷ ds) = c ∷ d ∷ ds

unfoldable pub trim_end : List ℕ → List ℕ
trim_end [] = []
trim_end (c ∷ cs) = shut c (trim_end cs)

unfoldable pub trim : List ℕ → List ℕ
unfolding trim_start trim_end
trim cs = trim_end (trim_start cs)

abbrev is_digit : ℕ → Bool
is_digit = between b'0' b'9'

-- All of it must be digits.
unfoldable pub digits : ℕ → List ℕ → Option ℕ
digits n [] = some n
digits n (c ∷ cs) = let rest = digits (n * 10 + (c - b'0')) cs in if is_digit c then rest else none

abbrev unsigned : List ℕ → Option ℕ
unsigned [] = none
unsigned (c ∷ cs) = digits 0 (c ∷ cs)

-- Values outside -bound .. bound - 1 are errors.
abbrev pub in_range : ℕ → ℤ → Bool
in_range bound (pos n) = leb (suc n) bound
in_range bound (negsuc n) = leb (suc n) bound

abbrev checked : ℕ → ℤ → Option ℤ
checked bound n = if in_range bound n then some n else none

abbrev positive : ℕ → Option ℕ → Option ℤ
positive bound none = none
positive bound (some n) = checked bound (pos n)

abbrev neg : ℕ → ℤ
neg zero = pos 0
neg (suc n) = negsuc n

abbrev negative : ℕ → Option ℕ → Option ℤ
negative bound none = none
negative bound (some n) = checked bound (neg n)

-- `parse` of a signed type whose least value is -bound; one sign may stand before the digits.
unfoldable pub parse_signed : ℕ → List ℕ → Option ℤ
unfolding digits
parse_signed bound [] = none
parse_signed bound (c ∷ cs) =
    if nat_eq c b'-'
    then negative bound (unsigned cs)
    else if nat_eq c b'+'
    then positive bound (unsigned cs)
    else positive bound (digits 0 (c ∷ cs))

unfoldable pub parse_i32 : String → Option ℤ
unfolding parse_signed trim
parse_i32 s = parse_signed (2 ^ 31) (trim (codes s))

abbrev pub AllInRange : ℕ → Option ℤ → Type 0
AllInRange bound none = Unit
AllInRange bound (some n) = in_range bound n ≡ true

checked-AllInRange : (bound : ℕ) (n : ℤ) → AllInRange bound (checked bound n)
checked-AllInRange bound n =
    if_cases (AllInRange bound) (in_range bound n) (some n) none (λ h. h) (λ _. tt)

positive-AllInRange : (bound : ℕ) (o : Option ℕ) → AllInRange bound (positive bound o)
positive-AllInRange bound none = tt
positive-AllInRange bound (some n) = checked-AllInRange bound (pos n)

negative-AllInRange : (bound : ℕ) (o : Option ℕ) → AllInRange bound (negative bound o)
negative-AllInRange bound none = tt
negative-AllInRange bound (some n) = checked-AllInRange bound (neg n)

-- A parsed number is a value of its type.
pub parse_signed-AllInRange : (bound : ℕ) (cs : List ℕ) → AllInRange bound (parse_signed bound cs)
unfolding parse_signed
parse_signed-AllInRange bound [] = tt
parse_signed-AllInRange bound (c ∷ cs) =
    if_cases (AllInRange bound) (nat_eq c b'-') _ _ (λ _. negative-AllInRange bound (unsigned cs))
      λ _.
        if_cases (AllInRange bound) (nat_eq c b'+') _ _
          (λ _. positive-AllInRange bound (unsigned cs))
          (λ _. positive-AllInRange bound (digits 0 (c ∷ cs)))

-- `to_string` of an unsigned number, on fuel: a number has no more digits than its value and one.
digits_of : ℕ → ℕ → List ℕ
digits_of zero n = []
digits_of (suc fuel) n =
    let more = digits_of fuel (n / 10) ++ (b'0' + n % 10) ∷ [] in
    if ltb n 10 then (b'0' + n) ∷ [] else more

unfoldable pub decimal : ℕ → List ℕ
unfolding digits_of
decimal n = digits_of (suc n) n

digits-append :
    (cs ds : List ℕ) (n m : ℕ) → digits n cs ≡ some m → digits n (cs ++ ds) ≡ digits m ds
unfolding digits
digits-append [] ds n m h = ap (λ o. elim o [ none ↦ none | some k ↦ digits k ds ]) h
digits-append (c ∷ cs) ds n m h = ground (arith, digits-append cs ds (n * 10 + (c - b'0')) m)

digits-digits_of : (fuel n : ℕ) → n < fuel → digits 0 (digits_of fuel n) ≡ some n
unfolding digits_of digits
digits-digits_of zero n h = elim h [ ]
digits-digits_of (suc fuel) n h = elim (Bool-cases (ltb n 10)) [
  | inl small ↦ rw small (ground arith)
  | inr large ↦ rw large (
      digits-append (digits_of fuel (n / 10)) _ 0 (n / 10)
        (digits-digits_of fuel (n / 10) (ground arith))
      ∙ ground arith)
]

-- What is printed is read back.
pub digits-decimal : (n : ℕ) → digits 0 (decimal n) ≡ some n
unfolding decimal
digits-decimal n = digits-digits_of (suc n) n (omega arith)

-- The parts between the separators, never none.
abbrev push_front : ℕ → List (List ℕ) → List (List ℕ)
push_front c [] = (c ∷ []) ∷ []
push_front c (t ∷ ts) = (c ∷ t) ∷ ts

-- `split` by one character
unfoldable pub split_at : ℕ → List ℕ → List (List ℕ)
split_at by [] = [] ∷ []
split_at by (c ∷ cs) =
    let rest = split_at by cs in if nat_eq c by then [] ∷ rest else push_front c rest

abbrev pub IsDigit : ℕ → Type 0
IsDigit c = (b'0' ≤ c) × (c ≤ b'9')

digits_of-AllDigits : (fuel n : ℕ) → All IsDigit (digits_of fuel n)
unfolding digits_of
digits_of-AllDigits zero n = tt
digits_of-AllDigits (suc fuel) n = elim (Bool-cases (ltb n 10)) [
  | inl small ↦ rw small ((omega arith, omega (arith, ltb→lt n 10 small)), tt)
  | inr large ↦ rw large (
      append-All IsDigit (digits_of fuel (n / 10)) _ (digits_of-AllDigits fuel (n / 10))
        (omega arith))
]

pub decimal-AllDigits : (n : ℕ) → All IsDigit (decimal n)
unfolding decimal
decimal-AllDigits n = digits_of-AllDigits (suc n) n

-- A part without the separator is split off whole.
pub split_at-append :
    (by : ℕ) (part cs : List ℕ)
    → All (λ c. nat_eq c by ≡ false) part
    → split_at by (part ++ by ∷ cs) ≡ part ∷ split_at by cs
unfolding split_at
split_at-append by [] cs h = ground arith
split_at-append by (c ∷ part) cs h = rw (h.0, split_at-append by part cs h.1) refl

pub split_at-whole :
    (by : ℕ) (part : List ℕ) → All (λ c. nat_eq c by ≡ false) part → split_at by part ≡ part ∷ []
unfolding split_at
split_at-whole by [] h = refl
split_at-whole by (c ∷ part) h = rw (h.0, split_at-whole by part h.1) refl
