-- ===== src/Manifest/Stream.antt =====
-- The reading of manifests in crates/synchrotron-plugins/src/manifest.rs. What the YAML deserializer makes
-- of a text, a value or an error for each document, is the input.
pub mod Kinds
pub mod Reading
use Prim.Native.Char.{Char, code}
use synchrotron.Base.{
  ℕ, ◌+◌, Bool, Option, none, some, List, [], ◌∷◌, String, if◌then◌else◌, nat_eq,
}
use synchrotron.Base.Options.{and_then}
use synchrotron.Base.Result.{Result, ok, err, ok_or, ◌>>=◌}
use synchrotron.Base.Int.{ℤ}
use synchrotron.Manifest.{Yaml, Gvk, Manifest, from_value}

abbrev pub prefixed : Char → Option (String × String) → Option (String × String)
prefixed c none = none
prefixed c (some (a, b)) = some (String.◌∷◌ c a, b)

-- `split_once('/')`
unfoldable pub split_slash : String → Option (String × String)
split_slash String.[] = none
split_slash (String.◌∷◌ c s) =
    let rest = prefixed c (split_slash s) in if nat_eq (code c) b'/' then some ("", s) else rest

abbrev pub group_version : String → String → Option (String × String) → Gvk
group_version api_version kind none = record { group = ""; version = api_version; kind = kind }
group_version api_version kind (some (g, v)) = record { group = g; version = v; kind = kind }

-- `Gvk::parse`
unfoldable pub parse_gvk : String → String → Gvk
unfolding split_slash
parse_gvk api_version kind = group_version api_version kind (split_slash api_version)

pub record OwnedResource : Type 0 where
  pub gvk : Gvk
  pub namespace : Option String
  pub name : String
  pub wave : ℤ
  pub prune_disabled : Bool

pub data ManifestParseError (E : Type 0) : Type 0 where
  yaml : (source_label : String) (doc_index : ℕ) (source : E) → ManifestParseError E
  missing_field : (source_label : String) (doc_index : ℕ) (field : String) → ManifestParseError E

-- How the reading of a stream ends early: an error is returned, or the thread panics.
pub data ParseStop (E : Type 0) : Type 0 where
  returned : ManifestParseError E → ParseStop E
  panicked : ParseStop E

unfoldable pub required_str :
    (Y : Yaml) {E : Type 0} → Y.Value → String → String → ℕ → Result String (ParseStop E)
required_str Y v field source_label doc_index =
    ok_or (and_then (Y.get v field) Y.as_str)
      (returned (missing_field source_label doc_index field))

abbrev pub metadata_str : (Y : Yaml) → Y.Value → String → Option String
metadata_str Y v field = and_then (and_then (Y.get v "metadata") (λ m. Y.get m field)) Y.as_str

module _ {Y : Yaml} {E : Type 0} where
  -- The body is stored at the given address.
  unfoldable pub value_to_manifest : String → ℕ → ℕ → Y.Value → Result (Manifest Y) (ParseStop E)
  unfolding required_str parse_gvk from_value
  value_to_manifest source_label doc_index address v = do
    api_version ← required_str Y v "apiVersion" source_label doc_index
    kind ← required_str Y v "kind" source_label doc_index
    name ←
        ok_or (metadata_str Y v "name")
          (returned (missing_field source_label doc_index "metadata.name"))
    body ← ok_or (from_value address v) panicked
    ok (record {
      gvk = parse_gvk api_version kind;
      name = name;
      namespace = metadata_str Y v "namespace";
      body = body;
    })

  -- The loop from document `i` on.
  unfoldable pub parse_docs :
      String → (ℕ → ℕ) → ℕ → List (Result Y.Value E) → Result (List (Manifest Y)) (ParseStop E)
  unfolding value_to_manifest
  parse_docs source_label address i [] = ok []
  parse_docs source_label address i (err e ∷ docs) = err (returned (yaml source_label i e))
  parse_docs source_label address i (ok v ∷ docs) =
      let rest = parse_docs source_label address (i + 1) docs in
      if Y.is_null v
      then rest
      else value_to_manifest source_label i (address i) v >>= λ m. rest >>= λ ms. ok (m ∷ ms)

  unfoldable pub parse_stream :
      String → (ℕ → ℕ) → List (Result Y.Value E) → Result (List (Manifest Y)) (ParseStop E)
  unfolding parse_docs
  parse_stream source_label address docs = parse_docs source_label address 0 docs
