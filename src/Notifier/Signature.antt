-- ===== src/Notifier/Signature.antt =====
-- That a receiver accepts what crates/synchrotron-notifier/src/lib.rs signs.
use synchrotron.Base.{
  ℕ, ◌≡◌, ◌∙◌, ◌↔◌, refl, sym, ap, subst, true, Option, none, some, List, [], ◌∷◌, ◌++◌, arith,
  nat_eq_iff,
}
use synchrotron.Base.Options.{and_then}
use synchrotron.Notifier.{Mac, sign, scheme, strip_prefix, verify_sig, verify}

strip_prefix-append : (prefix text : List ℕ) → strip_prefix prefix (prefix ++ text) ≡ some text
unfolding strip_prefix
strip_prefix-append [] text = refl
strip_prefix-append (a ∷ prefix) text =
    ground (arith, nat_eq_iff a a, strip_prefix-append prefix text)

strip_prefix-some :
    (prefix header text : List ℕ) → strip_prefix prefix header ≡ some text → header ≡ prefix ++ text
unfolding strip_prefix
strip_prefix-some [] header text h = cc
strip_prefix-some (a ∷ prefix) [] text h = cc
strip_prefix-some (a ∷ prefix) (b ∷ header) text h =
    ground (arith, nat_eq_iff a b, strip_prefix-some prefix header text)

-- The header names the scheme, and after it in hexadecimal the body's own code under the secret.
abbrev pub IsSigned : Mac → List ℕ → List ℕ → List ℕ → Type 0
IsSigned M secret body header_value =
    (text : List ℕ) × (header_value ≡ scheme ++ text)
    × (M.decode text ≡ some (M.finalize secret body))

verify-IsSigned :
    (M : Mac) (secret body header_value : List ℕ)
    → verify M secret body header_value ≡ true
    → IsSigned M secret body header_value
unfolding verify
verify-IsSigned M secret body header_value = go (strip_prefix scheme header_value) refl
  where
    decoded :
        (text : List ℕ)
        → strip_prefix scheme header_value ≡ some text
        → (sig : Option (List ℕ)) → M.decode text ≡ sig
        → verify_sig M secret body sig ≡ true
        → IsSigned M secret body header_value
    decoded text e none d h = cc
    decoded text e (some sig) d h = (
      text,
      strip_prefix-some scheme header_value text e,
      d ∙ ap some (M.verify-eq secret body sig h),
    )

    go :
        (stripped : Option (List ℕ))
        → strip_prefix scheme header_value ≡ stripped
        → verify_sig M secret body (and_then stripped M.decode) ≡ true
        → IsSigned M secret body header_value
    go none e h = cc
    go (some text) e h = decoded text e (M.decode text) refl h

IsSigned-verify :
    (M : Mac) (secret body text : List ℕ)
    → M.decode text ≡ some (M.finalize secret body)
    → verify M secret body (scheme ++ text) ≡ true
unfolding verify
IsSigned-verify M secret body text d =
    ap (λ o. verify_sig M secret body (and_then o M.decode)) (strip_prefix-append scheme text)
    ∙ rw d (M.verify-finalize secret body)

-- A receiver with the same secret accepts what is signed for a body, and of all headers just those
-- that carry the body's own code.
pub verify-sign :
    (M : Mac) (secret body : List ℕ)
    → (verify M secret body (scheme ++ sign M secret body) ≡ true)
      × ((header_value : List ℕ)
          → (verify M secret body header_value ≡ true) ↔ IsSigned M secret body header_value)
verify-sign M secret body = (
  IsSigned-verify M secret body (sign M secret body) (M.decode-encode (M.finalize secret body)),
  λ header_value. (
    verify-IsSigned M secret body header_value,
    λ (text, e, d).
        subst (λ t. verify M secret body t ≡ true) (sym e) (IsSigned-verify M secret body text d),
  ),
)
