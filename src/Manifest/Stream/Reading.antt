-- ===== src/Manifest/Stream/Reading.antt =====
-- What a stream of documents is read as by crates/synchrotron-plugins/src/manifest.rs.
use synchrotron.Base.{
  ℕ, suc, ◌+◌, ◌≡◌, ◌⊎◌, refl, ap, subst, inl, inr, true, false, not, Option, none, some, List, [],
  ◌∷◌, ◌++◌, String, arith, filter, map, length, if_cases,
}
use synchrotron.Base.Options.{and_then, map_option}
use synchrotron.Base.Result.{Result, ok, err, ok_or, ◌>>=◌}
use synchrotron.Manifest.{Yaml, ManifestBody, Manifest, value, fnv1a64, from_value}
use synchrotron.Manifest.Stream.Kinds.{Names, parse_gvk-Names}
use synchrotron.Manifest.Stream.{
  parse_gvk, ParseStop, returned, panicked, yaml, missing_field, required_str, metadata_str,
  value_to_manifest, parse_docs, parse_stream,
}

abbrev pub str_at : (Y : Yaml) → Y.Value → String → Option String
str_at Y v field = and_then (Y.get v field) Y.as_str

-- The manifest is that of the value: its identity is read from it, its body is it.
pub record Identifies {Y : Yaml} (v : Y.Value) (m : Manifest Y) : Type 0 where
  pub api_version : String
  pub kind : String
  pub has_api_version : str_at Y v "apiVersion" ≡ some api_version
  pub has_kind : str_at Y v "kind" ≡ some kind
  pub gvk : Names api_version kind m.gvk
  pub name : metadata_str Y v "name" ≡ some m.name
  pub namespace : metadata_str Y v "namespace" ≡ m.namespace
  pub body : value m.body ≡ v
  pub written : Y.to_vec v ≡ some m.body.bytes

-- A required field is missing.
abbrev pub Lacks : (Y : Yaml) → Y.Value → String → Type 0
Lacks Y v field =
    ((field ≡ "apiVersion") × (str_at Y v "apiVersion" ≡ none))
    ⊎ ((field ≡ "kind") × (str_at Y v "kind" ≡ none))
    ⊎ ((field ≡ "metadata.name") × (metadata_str Y v "name" ≡ none))

module _ (Y : Yaml) where
  -- The manifests are those of the values, one for one.
  abbrev pub AllIdentify : List Y.Value → List (Manifest Y) → Type 0
  AllIdentify [] [] = Unit
  AllIdentify (v ∷ vs) (m ∷ ms) = Identifies v m × AllIdentify vs ms
  AllIdentify _ _ = ⊥

  abbrev pub present : List Y.Value → List Y.Value
  present vs = filter (λ v. not (Y.is_null v)) vs

module _ (Y : Yaml) (E : Type 0) where
  -- A field is missing, or the value has no text.
  abbrev pub Faults : String → ℕ → Y.Value → ParseStop E → Type 0
  Faults label i v (returned e) =
      (field : String) × (e ≡ missing_field label i field) × Lacks Y v field
  Faults label i v panicked = Y.to_vec v ≡ none

  abbrev Made : String → ℕ → Y.Value → Result (Manifest Y) (ParseStop E) → Type 0
  Made label i v (ok m) = Identifies v m
  Made label i v (err e) = Faults label i v e

  value_to_manifest-Made :
      (label : String) (i address : ℕ) (v : Y.Value)
      → Made label i v (value_to_manifest label i address v)
  unfolding value_to_manifest required_str value from_value
  value_to_manifest-Made label i address v =
      go (str_at Y v "apiVersion") (str_at Y v "kind") (metadata_str Y v "name") (Y.to_vec v) refl
        refl refl refl
    where
      go :
          (a k n : Option String) (b : Option (List ℕ))
          → str_at Y v "apiVersion" ≡ a
          → str_at Y v "kind" ≡ k
          → metadata_str Y v "name" ≡ n
          → Y.to_vec v ≡ b
          → Made label i v (
              ok_or a (returned (missing_field label i "apiVersion")) >>= λ api_version.
              ok_or k (returned (missing_field label i "kind")) >>= λ kind.
              ok_or n (returned (missing_field label i "metadata.name")) >>= λ name.
              ok_or
                (map_option
                  (λ bytes. record {
                    address = address;
                    bytes = bytes;
                    hash = fnv1a64 bytes;
                    parsed = some v;
                  })
                  b)
                panicked
              >>= λ (body : ManifestBody Y). ok (record {
                gvk = parse_gvk api_version kind;
                name = name;
                namespace = metadata_str Y v "namespace";
                body = body;
              }))
      go none k n b ea ek en eb = ("apiVersion", refl, inl (refl, ea))
      go (some a) none n b ea ek en eb = ("kind", refl, inr (inl (refl, ek)))
      go (some a) (some k) none b ea ek en eb = ("metadata.name", refl, inr (inr (refl, en)))
      go (some a) (some k) (some n) none ea ek en eb = eb
      go (some a) (some k) (some n) (some bytes) ea ek en eb = record {
        api_version = a;
        kind = k;
        has_api_version = ea;
        has_kind = ek;
        gvk = parse_gvk-Names a k;
        name = en;
        namespace = refl;
        body = refl;
        written = eb;
      }

  -- The stop is the fault of the document with this index.
  abbrev pub Blames : String → ℕ → Result Y.Value E → ParseStop E → Type 0
  Blames label i (err source) e = e ≡ returned (yaml label i source)
  Blames label i (ok v) e = (Y.is_null v ≡ false) × Faults label i v e

  abbrev pub Reads :
      String → ℕ → List (Result Y.Value E) → Result (List (Manifest Y)) (ParseStop E) → Type 0
  Reads label i docs (ok ms) =
      (vs : List Y.Value) × (docs ≡ map ok vs) × AllIdentify Y (present Y vs) ms
  Reads label i docs (err e) =
      (vs : List Y.Value) × (bad : Result Y.Value E) × (back : List (Result Y.Value E)) × (docs
        ≡ map ok vs ++ bad ∷ back)
      × ((ms : List (Manifest Y)) × AllIdentify Y (present Y vs) ms)
      × Blames label (i + length vs) bad e

  one_later :
      (label : String) (i : ℕ) (vs : List Y.Value) (bad : Result Y.Value E) (e : ParseStop E)
      → Blames label (i + 1 + length vs) bad e
      → Blames label (i + suc (length vs)) bad e
  one_later label i vs bad e =
      let same : i + 1 + length vs ≡ i + suc (length vs) = omega arith in
      subst (λ j. Blames label j bad e) same

  at_once :
      (label : String) (i : ℕ) (bad : Result Y.Value E) (e : ParseStop E)
      → Blames label i bad e
      → Blames label (i + 0) bad e
  at_once label i bad e =
      let same : i ≡ i + 0 = omega arith in subst (λ j. Blames label j bad e) same

  skip-Reads :
      (label : String) (i : ℕ) (v : Y.Value) (docs : List (Result Y.Value E))
      (r : Result (List (Manifest Y)) (ParseStop E))
      → Y.is_null v ≡ true
      → Reads label (i + 1) docs r
      → Reads label i (ok v ∷ docs) r
  skip-Reads label i v docs (ok ms) null h =
      let (vs, docs_eq, all) = h in (v ∷ vs, ap (λ l. ok v ∷ l) docs_eq, rw null all)
  skip-Reads label i v docs (err e) null h =
      let (vs, bad, back, docs_eq, (ms, all), blame) = h in
      (
        v ∷ vs,
        bad,
        back,
        ap (λ l. ok v ∷ l) docs_eq,
        (ms, rw null all),
        one_later label i vs bad e blame,
      )

  read-Reads :
      (label : String) (i : ℕ) (v : Y.Value) (docs : List (Result Y.Value E))
      (made : Result (Manifest Y) (ParseStop E)) (rest : Result (List (Manifest Y)) (ParseStop E))
      → Y.is_null v ≡ false
      → Made label i v made
      → Reads label (i + 1) docs rest
      → Reads label i (ok v ∷ docs) (made >>= λ m. rest >>= λ ms. ok (m ∷ ms))
  read-Reads label i v docs (err e) rest there made h =
      ([], ok v, docs, refl, ([], tt), at_once label i (ok v) e (there, made))
  read-Reads label i v docs (ok m) (err e) there made h =
      let (vs, bad, back, docs_eq, (ms, all), blame) = h in
      (
        v ∷ vs,
        bad,
        back,
        ap (λ l. ok v ∷ l) docs_eq,
        (m ∷ ms, rw there (made, all)),
        one_later label i vs bad e blame,
      )
  read-Reads label i v docs (ok m) (ok ms) there made h =
      let (vs, docs_eq, all) = h in (v ∷ vs, ap (λ l. ok v ∷ l) docs_eq, rw there (made, all))

  parse_docs-Reads :
      (label : String) (address : ℕ → ℕ) (i : ℕ) (docs : List (Result Y.Value E))
      → Reads label i docs (parse_docs label address i docs)
  unfolding parse_docs
  parse_docs-Reads label address i [] = ([], refl, tt)
  parse_docs-Reads label address i (err x ∷ docs) =
      ([], err x, docs, refl, ([], tt), at_once label i (err x) (returned (yaml label i x)) refl)
  parse_docs-Reads label address i (ok v ∷ docs) =
      if_cases (Reads label i (ok v ∷ docs)) (Y.is_null v) _ _
        (λ null. skip-Reads label i v docs _ null (parse_docs-Reads label address (i + 1) docs))
        (λ there.
          read-Reads label i v docs (value_to_manifest label i (address i) v)
            (parse_docs label address (i + 1) docs) there
            (value_to_manifest-Made label i (address i) v)
            (parse_docs-Reads label address (i + 1) docs))

  -- A stream is read as the manifests of its documents that are not null, one for each and in order, each
  -- identified by its value and with the text that is written for it; or the reading stops at the first
  -- document that cannot be read, and all before it could be: the error with the document's index is
  -- returned if it is no YAML or lacks a field, and the thread panics if no text can be written for it.
  pub parse_stream-Reads :
      (label : String) (address : ℕ → ℕ) (docs : List (Result Y.Value E))
      → Reads label 0 docs (parse_stream label address docs)
  unfolding parse_stream
  parse_stream-Reads label address docs = parse_docs-Reads label address 0 docs
