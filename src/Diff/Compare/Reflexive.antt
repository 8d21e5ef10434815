-- ===== src/Diff/Compare/Reflexive.antt =====
-- That crates/synchrotron-diff/src/compare.rs finds no difference between a body and itself.
use synchrotron.Base.{
  ℕ, zero, suc, ◌+◌, ◌≡◌, ◌<◌, ◌∙◌, refl, ap, ap₂, subst, Bool, true, false, Option, none, some,
  List, [], ◌∷◌, ◌++◌, String, arith, ℕ_eq, List_eq, Pair_eq, All, All-imp, map, eq_self,
}
use synchrotron.Base.Map.{is_some}
use synchrotron.Manifest.{Yaml, Manifest, value}
use synchrotron.Diff.Paths.{ValuePath, root, push, index}
use synchrotron.Diff.Tree.{Shape, sequence, mapping, parts, Tree, IsTree, HasFunctional, map_get}
use synchrotron.Diff.ListMap.{ListMapKeys, keys_for}
use synchrotron.Diff.Compare.{
  Differ, against, at_key, extract_keys, passed, take_match, removed_items, diff_items,
  diff_listmap, diff_fields, removed_fields, diff_positional, diff_lists, diff_shapes, unlike,
  diff_value, diff, strip_excluded,
}

module _ {Y : Yaml} (T : Tree Y) where
  -- `rec` reports nothing of a value and itself, below a rank.
  abbrev IsQuiet : ℕ → Differ T → Type 0
  IsQuiet n rec = (v : Y.Value) (path : ValuePath) → T.rank v < n → rec v v path ≡ []

  abbrev AreSmall : ℕ → List Y.Value → Type 0
  AreSmall n vs = All (λ v. T.rank v < n) vs

  removed_fields-nil :
      (m l : List (Y.Value × Y.Value)) (path : ValuePath)
      → All (λ e. map_get Y.value_beq m e.0 ≡ some e.1) l
      → removed_fields T m l path ≡ []
  unfolding removed_fields
  removed_fields-nil m [] path f = refl
  removed_fields-nil m ((k, v) ∷ l) path f = rw (ap is_some f.0) (removed_fields-nil m l path f.1)

  module _ (n : ℕ) (rec : Differ T) (quiet : IsQuiet n rec) where
    diff_fields-nil :
        (l m : List (Y.Value × Y.Value)) (path : ValuePath)
        → All (λ e. map_get Y.value_beq m e.0 ≡ some e.1) l
        → AreSmall n (map (λ e. e.1) l)
        → diff_fields T rec l m path ≡ []
    unfolding diff_fields
    diff_fields-nil [] m path f small = refl
    diff_fields-nil ((k, v) ∷ l) m path f small =
        ap₂ ◌++◌
          (ap (λ o. against T rec v o (at_key T path k)) f.0 ∙ quiet v (at_key T path k) small.0)
          (diff_fields-nil l m path f.1 small.1)

    diff_positional-nil :
        (i : ℕ) (vs : List Y.Value) (path : ValuePath)
        → AreSmall n vs
        → diff_positional T rec i vs vs path ≡ []
    unfolding diff_positional
    diff_positional-nil i [] path small = refl
    diff_positional-nil i (v ∷ vs) path small =
        ap₂ ◌++◌ (quiet v (push path (index i)) small.0)
          (diff_positional-nil (i + 1) vs path small.1)

    module _ (keys : List String) where
      -- The elements before `front` are taken, the others free.
      abbrev state : (front rest : List Y.Value) → List (Bool × Y.Value)
      state [] rest = map (λ v. (false, v)) rest
      state (v ∷ front) rest = (true, v) ∷ state front rest

      state-snoc :
          (front : List Y.Value) (v : Y.Value) (rest : List Y.Value)
          → state (front ++ v ∷ []) rest ≡ state front [] ++ (true, v) ∷ map (λ w. (false, w)) rest
      state-snoc [] v rest = refl
      state-snoc (w ∷ front) v rest = ap (λ l. (true, w) ∷ l) (state-snoc front v rest)

      -- The first free element is the next one.
      take_match-state :
          (front : List Y.Value) (v : Y.Value) (rest : List Y.Value)
          → take_match T keys (extract_keys T v keys) (state front (v ∷ rest))
            ≡ some (v, state (front ++ v ∷ []) rest)
      unfolding take_match
      take_match-state [] v rest = rw (eq_self (extract_keys T v keys))
      take_match-state (w ∷ front) v rest = ap (passed T (true, w)) (take_match-state front v rest)

      removed_items-nil :
          (front : List Y.Value) (path : ValuePath)
          → removed_items T keys (state front []) path ≡ []
      unfolding removed_items
      removed_items-nil [] path = refl
      removed_items-nil (v ∷ front) path = removed_items-nil front path

      diff_items-nil :
          (front rest : List Y.Value) (path : ValuePath)
          → AreSmall n rest
          → diff_items T rec keys rest (state front rest) path ≡ []
      unfolding diff_items
      diff_items-nil front [] path small = removed_items-nil front path
      diff_items-nil front (v ∷ rest) path small =
          rw (take_match-state front v rest, diff_items)
            (ap₂ ◌++◌ (quiet v _ small.0) (diff_items-nil (front ++ v ∷ []) rest path small.1))

  module _ (laws : IsTree T) (list_maps : ValuePath → Option (List String)) where
    lists-nil :
        (n : ℕ) (rec : Differ T)
        → IsQuiet n rec
        → (keys : Option (List String)) (vs : List Y.Value) (path : ValuePath) → AreSmall n vs
        → diff_lists T list_maps rec keys vs vs path ≡ []
    unfolding diff_listmap
    lists-nil n rec quiet none vs path small = diff_positional-nil n rec quiet 0 vs path small
    lists-nil n rec quiet (some keys) vs path small =
        diff_items-nil n rec quiet keys [] vs path small

    unlike-nil : (v : Y.Value) (path : ValuePath) → unlike T v v path ≡ []
    unlike-nil v path = rw (laws.reflexive v)

    shapes-nil :
        (n : ℕ) (rec : Differ T)
        → IsQuiet n rec
        → (s : Shape Y.Value) (v : Y.Value) (path : ValuePath) → HasFunctional Y.value_beq s
        → AreSmall n (parts s)
        → diff_shapes T list_maps rec s s v v path ≡ []
    shapes-nil n rec quiet (mapping m) v path e small =
        ap₂ ◌++◌ (diff_fields-nil n rec quiet m m path e small) (removed_fields-nil m m path e)
    shapes-nil n rec quiet (sequence vs) v path e small =
        lists-nil n rec quiet (list_maps path) vs path small
    shapes-nil n rec quiet s v path e small = unlike-nil v path

    diff_value-IsQuiet : (n : ℕ) → IsQuiet n (diff_value T list_maps n)
    unfolding diff_value
    diff_value-IsQuiet zero v path h = elim h [ ]
    diff_value-IsQuiet (suc n) v path h =
        shapes-nil n (diff_value T list_maps n) (diff_value-IsQuiet n) (T.shape v) v path
          (laws.keys_once v)
          (All-imp (λ x. T.rank x < T.rank v) (λ x p. omega arith) (parts (T.shape v))
            (T.rank_parts v))

  -- Of two manifests with one body nothing is reported, whatever lists are list-maps and even where
  -- the keys of a list-map do not tell its elements apart. The laws of the library's equality are
  -- assumed.
  diff-nil_of_eq :
      (desired live : Manifest Y) (list_maps : ListMapKeys)
      → IsTree T
      → value desired.body ≡ value live.body
      → diff T desired live list_maps ≡ []
  unfolding diff
  diff-nil_of_eq desired live list_maps laws same =
      let body = strip_excluded T (value desired.body) in
      subst
        (λ v.
          diff_value T (keys_for list_maps desired.gvk) (suc (T.rank body)) body
            (strip_excluded T v) root
          ≡ [])
        same
        (diff_value-IsQuiet laws (keys_for list_maps desired.gvk) (suc (T.rank body)) body root
          (omega arith))
