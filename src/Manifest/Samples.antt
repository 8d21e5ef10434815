-- ===== src/Manifest/Samples.antt =====
-- A concrete YAML value, and tests of the hash and of the bodies' equality.
use synchrotron.Base.{
  ℕ, ◌≡◌, ◌⊎◌, ◌↔◌, inl, inr, refl, Bool, true, false, List, [], ◌∷◌, Option, none, some, String,
  ◌==◌, String_eq, if◌then◌else◌, Bool-cases, Bool_eq, ◌&&◌,
}
use synchrotron.Base.Int.{ℤ, ℤ_eq}
use text.Mathlib.TextEquality.{eq_iff}
use synchrotron.Manifest.{Yaml, Manifest, ManifestBody, value, body_beq, fnv1a64}
use synchrotron.Base.Result.{Result, ok, err}
use synchrotron.Manifest.Stream.{returned, panicked, missing_field, parse_gvk, parse_stream}
use synchrotron.Manifest.Stream.Reading.{Reads, parse_stream-Reads}
use synchrotron.Manifest.Bodies.{body_beq_iff}

-- A sequence or a mapping is a chain of its entries.
pub data Node : Type 0 where
  null : Node
  bool : Bool → Node
  int : ℤ → Node
  str : String → Node
  item : Node → Node → Node
  field : String → Node → Node → Node

unfoldable pub String_discrete : Discrete String
String_discrete s t = elim (Bool-cases (s == t)) [
  | inl h ↦ yes ((eq_iff s t).0 h)
  | inr h ↦ no (λ e. cc (h, (eq_iff s t).1 e))
]

abbrev pub node_beq : Node → Node → Bool
node_beq null null = true
node_beq (bool b) (bool c) = b == c
node_beq (int n) (int m) = n == m
node_beq (str s) (str t) = s == t
node_beq (item v rest) (item w more) = node_beq v w && node_beq rest more
node_beq (field j v rest) (field k w more) = j == k && node_beq v w && node_beq rest more
node_beq _ _ = false

abbrev node_get : Node → String → Option Node
node_get (field j v rest) k = if j == k then some v else node_get rest k
node_get _ k = none

abbrev node_items : Node → Option (List Node)
node_items (item v rest) = elim (node_items rest) [ none ↦ some (v ∷ []) | some l ↦ some (v ∷ l) ]
node_items _ = none

abbrev pub Sample : Yaml
Sample = record {
  Value = Node;
  value_beq = node_beq;
  is_null = elim [ null ↦ true | _ ↦ false ];
  get = node_get;
  as_str = elim [ str s ↦ some s | _ ↦ none ];
  as_i64 = elim [ int n ↦ some n | _ ↦ none ];
  as_bool = elim [ bool b ↦ some b | _ ↦ none ];
  as_sequence = node_items;
  to_vec = λ v. some [];
  from_slice = λ bytes. null;
}

-- A resource of the core group with a body, whose text is told by its address.
abbrev pub core : ℕ → String → String → Node → Manifest Sample
core address kind name body = record {
  gvk = record { group = ""; version = "v1"; kind = kind };
  name = name;
  namespace = some "app";
  body = record {
    address = address;
    bytes = address ∷ [];
    hash = fnv1a64 (address ∷ []);
    parsed = some body;
  };
}

-- The published FNV-1a value of the text "a".
fnv1a64_letter : fnv1a64 (b'a' ∷ []) ≡ 0xaf63dc4c8601ec8c
unfolding fnv1a64
fnv1a64_letter = refl

-- One value, written in two ways.
abbrev written : List ℕ → ManifestBody Sample
written bytes = record { address = 1; bytes = bytes; hash = fnv1a64 bytes; parsed = some (str "a") }

body_beq_iff_example : (body_beq (written (1 ∷ [])) (written (1 ∷ [])) ≡ true) ↔ (
    (fnv1a64 (1 ∷ []) ≡ fnv1a64 (1 ∷ []))
    × ((◌≡◌ {A = List ℕ} (1 ∷ []) (1 ∷ []))
        ⊎ (Sample.value_beq (value (written (1 ∷ []))) (value (written (1 ∷ []))) ≡ true)))
body_beq_iff_example =
    body_beq_iff (written (1 ∷ [])) (written (1 ∷ [])) (record { hashed = refl })
      (record { hashed = refl }) (λ _. refl)

abbrev named_doc : Node
named_doc =
    field "apiVersion" (str "apps/v1")
      (field "kind" (str "Deployment") (field "metadata" (field "name" (str "web") null) null))

abbrev nameless_doc : Node
nameless_doc = field "apiVersion" (str "v1") (field "kind" (str "Pod") null)

-- A null document and a manifest; the third document lacks its name.
abbrev docs : List (Result Node String)
docs = ok null ∷ ok named_doc ∷ ok nameless_doc ∷ err "bad indentation" ∷ []

third_blamed :
    parse_stream {Y = Sample} "raw" (λ i. i) docs
    ≡ err (returned (missing_field "raw" 2 "metadata.name"))
unfolding parse_stream
third_blamed = refl

-- The same values, with no text.
abbrev unwritable : Yaml
unwritable = record Sample { to_vec = λ v. none }

unwritten_panics :
    parse_stream {Y = unwritable} {E = String} "raw" (λ i. i) (ok named_doc ∷ []) ≡ err panicked
unfolding parse_stream
unwritten_panics = refl

parse_stream-Reads_example :
    Reads Sample String "raw" 0 docs (parse_stream {Y = Sample} "raw" (λ i. i) docs)
parse_stream-Reads_example = parse_stream-Reads Sample String "raw" (λ i. i) docs

core_group : parse_gvk "v1" "Pod" ≡ record { group = ""; version = "v1"; kind = "Pod" }
unfolding parse_gvk
core_group = refl
