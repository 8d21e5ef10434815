-- ===== src/KnownHosts/Lines.antt =====
-- That the lines that crates/synchrotron-git/src/known_hosts.rs writes are read back.
use mathlib.Core.List.{append_assoc}
use synchrotron.Base.{
  ℕ, ◌≡◌, ◌≢◌, ◌∙◌, refl, sym, ap, subst, inl, inr, Bool, true, false, not, ◌||◌, none, some, List,
  [], ◌∷◌, ◌++◌, ℕ_eq, List_eq, ◌==◌, if◌then◌else◌, arith, nat_eq, contains, Bool-cases,
  list_beq_iff, All, All-imp, append-All,
}
use synchrotron.Base.Text.{
  codes, is_whitespace, trim, decimal, split_at, split_at-whole, IsDigit, decimal-AllDigits,
}
use synchrotron.Base.Words.{split_whitespace, split_whitespace-three, trim_visible, IsVisible}
use synchrotron.KnownHosts.{Text, plain, Crypto, Disk, canonical_host_form, entry_line, new_entry}
use synchrotron.KnownHosts.Syntax.{
  known_key_types, is_known_key_type, strip_hashed, parse_entry, parse_tokens, read_trimmed,
  parse_line,
}

-- A character that means nothing to the format.
abbrev pub is_host_char : ℕ → Bool
is_host_char c =
    not (is_whitespace c || nat_eq c b',' || nat_eq c b'#' || nat_eq c b'@' || nat_eq c b'|')

abbrev pub IsHostText : Text → Type 0
IsHostText = All (λ c. is_host_char c ≡ true)

digit-host_char : (c : ℕ) → IsDigit c → is_host_char c ≡ true
unfolding is_whitespace
digit-host_char c d = ground arith

canonical-IsHostText :
    (host : Text) (port : ℕ) → IsHostText host → IsHostText (canonical_host_form host port)
unfolding canonical_host_form is_whitespace
canonical-IsHostText host port h = elim (Bool-cases (nat_eq port 22)) [
  | inl e ↦ rw e h
  | inr e ↦ rw e (
      append-All _ (codes "[" ++ host ++ codes "]:") (decimal port)
        (append-All _ (codes "[" ++ host) (codes "]:") (append-All _ (codes "[") host (refl, tt) h)
          (refl, (refl, tt)))
        (All-imp IsDigit digit-host_char (decimal port) (decimal-AllDigits port)))
]

host-IsVisible : (text : Text) → IsHostText text → IsVisible text
host-IsVisible text h = All-imp _ (λ c e. ground arith) text h

-- What holds of each listed text holds of one that is among them.
contains-All :
    (P : Text → Type 0) (texts : List Text) (text : Text)
    → All P texts
    → contains texts text ≡ true
    → P text
contains-All P [] text h e = cc
contains-All P (t ∷ texts) text h e = elim (Bool-cases (t == text)) [
  | inl same ↦ subst P ((list_beq_iff t text).0 same) h.0
  | inr other ↦ contains-All P texts text h.1 (ground arith)
]

all_visible : Text → Bool
all_visible [] = true
all_visible (c ∷ text) = let rest = all_visible text in if is_whitespace c then false else rest

all_visible-IsVisible : (text : Text) → all_visible text ≡ true → IsVisible text
unfolding all_visible
all_visible-IsVisible [] h = tt
all_visible-IsVisible (c ∷ text) h = elim (Bool-cases (is_whitespace c)) [
  | inl e ↦ absurd (ground arith)
  | inr e ↦ (e, all_visible-IsVisible text (ground arith))
]

key_types_visible : All (λ t. all_visible t ≡ true) known_key_types
unfolding all_visible is_whitespace
key_types_visible = (refl, (refl, (refl, (refl, (refl, (refl, (refl, (refl, (refl, tt)))))))))

key_type-IsVisible : (key_type : Text) → is_known_key_type key_type ≡ true → IsVisible key_type
unfolding is_known_key_type
key_type-IsVisible key_type h =
    all_visible-IsVisible key_type
      (contains-All (λ t. all_visible t ≡ true) known_key_types key_type key_types_visible h)

-- What a host character is not
abbrev Means : ℕ → Type 0
Means c =
    (is_whitespace c ≡ false)
    × (nat_eq c b',' ≡ false)
    × (nat_eq c b'#' ≡ false)
    × (nat_eq c b'@' ≡ false)
    × (nat_eq c b'|' ≡ false)

host_char-Means : (c : ℕ) → is_host_char c ≡ true → Means c
host_char-Means c h =
    go (is_whitespace c) (nat_eq c b',') (nat_eq c b'#') (nat_eq c b'@') (nat_eq c b'|') h
  where
    go :
        (white comma hash at bar : Bool)
        → not (white || comma || hash || at || bar) ≡ true
        → (white ≡ false) × (comma ≡ false) × (hash ≡ false) × (at ≡ false) × (bar ≡ false)
    go white comma hash at bar h = ground arith

strip_hashed-none : (c : ℕ) (cs : Text) → nat_eq c b'|' ≡ false → strip_hashed (c ∷ cs) ≡ none
strip_hashed-none c [] h = refl
strip_hashed-none c (d ∷ []) h = refl
strip_hashed-none c (d ∷ e ∷ cs) h = rw h refl

canonical-some : (host : Text) (port : ℕ) → host ≢ [] → canonical_host_form host port ≢ []
unfolding canonical_host_form
canonical-some host port h = elim (Bool-cases (nat_eq port 22)) [
  | inl e ↦ rw e h
  | inr e ↦ rw e (λ n. cc)
]

no_type : is_known_key_type [] ≢ true
unfolding is_known_key_type
no_type h = cc

module _ (B : Crypto) where
  -- A line of three plain words
  abbrev line_of : Text → Text → Text → Text
  line_of form key_type key_b64 = form ++ 32 ∷ (key_type ++ 32 ∷ key_b64)

  trim-line_of :
      (c : ℕ) (cs key_type : Text) (e : ℕ) (es : Text)
      → is_whitespace c ≡ false
      → IsVisible (e ∷ es)
      → trim (line_of (c ∷ cs) key_type (e ∷ es)) ≡ line_of (c ∷ cs) key_type (e ∷ es)
  trim-line_of c cs key_type e es h v =
      let split : (cs ++ 32 ∷ (key_type ++ 32 ∷ [])) ++ e ∷ es
          ≡ cs ++ 32 ∷ (key_type ++ 32 ∷ e ∷ es) =
        append_assoc cs (32 ∷ (key_type ++ 32 ∷ [])) (e ∷ es)
        ∙ ap (λ l. cs ++ 32 ∷ l) (append_assoc key_type (32 ∷ []) (e ∷ es)) in
      subst (λ l. trim (c ∷ l) ≡ c ∷ l) split
        (trim_visible c (cs ++ 32 ∷ (key_type ++ 32 ∷ [])) e es h v)

  parse_entry-plain :
      (c : ℕ) (cs key_type key_b64 : Text) (k : ℕ) (ks : List ℕ)
      → IsHostText (c ∷ cs)
      → is_known_key_type key_type ≡ true
      → B.decode key_b64 ≡ some (k ∷ ks)
      → parse_entry B (c ∷ cs) (key_type ∷ key_b64 ∷ [])
        ≡ some (record { pattern = plain ((c ∷ cs) ∷ []); key_type = key_type; key_b64 = key_b64 })
  parse_entry-plain c cs key_type key_b64 k ks host known decoded =
      let (_, _, _, _, bar) = host_char-Means c host.0 in
      let whole : split_at b',' (c ∷ cs) ≡ (c ∷ cs) ∷ [] =
        split_at-whole b',' (c ∷ cs) (All-imp _ (λ x e. ground arith) (c ∷ cs) host) in
      rw (known, strip_hashed-none c cs bar) (rw (whole, decoded) refl)

  read_trimmed-visible :
      (c : ℕ) (cs : Text)
      → nat_eq c b'#' ≡ false
      → read_trimmed B (c ∷ cs) ≡ parse_tokens B (split_whitespace (c ∷ cs))
  read_trimmed-visible c cs h = rw h refl

  parse_tokens-plain :
      (c : ℕ) (cs key_type key_b64 : Text)
      → nat_eq c b'@' ≡ false
      → parse_tokens B ((c ∷ cs) ∷ key_type ∷ key_b64 ∷ [])
        ≡ parse_entry B (c ∷ cs) (key_type ∷ key_b64 ∷ [])
  parse_tokens-plain c cs key_type key_b64 h = rw h refl

  parse_line-plain :
      (c : ℕ) (cs : Text) (t : ℕ) (ts : Text) (e : ℕ) (es : Text) (k : ℕ) (ks : List ℕ)
      → IsHostText (c ∷ cs)
      → is_known_key_type (t ∷ ts) ≡ true
      → IsVisible (e ∷ es)
      → B.decode (e ∷ es) ≡ some (k ∷ ks)
      → parse_line B (line_of (c ∷ cs) (t ∷ ts) (e ∷ es))
        ≡ some (record { pattern = plain ((c ∷ cs) ∷ []); key_type = t ∷ ts; key_b64 = e ∷ es })
  unfolding parse_line
  parse_line-plain c cs t ts e es k ks host known visible decoded =
      let (white, _, hash, marker, _) = host_char-Means c host.0 in
      let words =
        split_whitespace-three c cs t ts e es (host-IsVisible (c ∷ cs) host)
          (key_type-IsVisible (t ∷ ts) known) visible in
      ap (read_trimmed B) (trim-line_of c cs (t ∷ ts) e es white visible)
      ∙ read_trimmed-visible c (cs ++ 32 ∷ ((t ∷ ts) ++ 32 ∷ e ∷ es)) hash
      ∙ ap (parse_tokens B) words
      ∙ parse_tokens-plain c cs (t ∷ ts) (e ∷ es) marker
      ∙ parse_entry-plain c cs (t ∷ ts) (e ∷ es) k ks host known decoded

  -- A line that is written for a host, a known type of key and a key that is not empty is read back
  -- as the entry that was put in memory.
  pub parse_line-entry_line :
      (D : Disk) (host : Text) (port : ℕ) (key_type : Text) (key : List ℕ)
      → host ≢ []
      → IsHostText host
      → is_known_key_type key_type ≡ true
      → key ≢ []
      → parse_line B (entry_line B D host port key_type key)
        ≡ some (new_entry B D host port key_type key)
  parse_line-entry_line D host port key_type key some_host good known some_key =
      go (canonical_host_form host port) key_type (B.encode key) key
        (canonical-some host port some_host) (canonical-IsHostText host port good) known
        (B.encode_visible key) (B.decode-encode key) some_key
    where
      go :
          (form key_type key_b64 : Text) (key : List ℕ)
          → form ≢ []
          → IsHostText form
          → is_known_key_type key_type ≡ true
          → IsVisible key_b64
          → B.decode key_b64 ≡ some key
          → key ≢ []
          → parse_line B (line_of form key_type key_b64)
            ≡ some (record { pattern = plain (form ∷ []); key_type = key_type; key_b64 = key_b64 })
      go form key_type key_b64 [] n host known v d k = absurd (k refl)
      go [] key_type key_b64 (x ∷ xs) n host known v d k = absurd (n refl)
      go (c ∷ cs) [] key_b64 (x ∷ xs) n host known v d k = absurd (no_type known)
      go (c ∷ cs) (t ∷ ts) [] (x ∷ xs) n host known v d k =
          let empty : some [] ≡ some (x ∷ xs) = sym B.decode_empty ∙ d in cc
      go (c ∷ cs) (t ∷ ts) (e ∷ es) (x ∷ xs) n host known v d k =
          parse_line-plain c cs t ts e es x xs host known v d
