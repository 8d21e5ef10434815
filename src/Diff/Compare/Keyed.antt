-- ===== src/Diff/Compare/Keyed.antt =====
-- The matching of list-map elements in crates/synchrotron-diff/src/compare.rs.
use mathlib.Core.List.{Perm, Mem, mem-cons, mem-cons_self, mem-cons_of_mem, not-mem-nil}
use mathlib.Core.List.Perm
use mathlib.Core.Logic.Or
use synchrotron.Base.{
  ◌≡◌, ◌↔◌, ◌∙◌, refl, sym, ap, subst, Bool, true, false, Option, none, some, List, [], ◌∷◌, ◌++◌,
  String, arith, ◌==◌, ℕ_eq, List_eq, Pair_eq, map, if_cases, list_beq_iff,
}
use synchrotron.Manifest.{Yaml}
use synchrotron.Diff.Paths.{Text, ValuePath, keyed, push}
use synchrotron.Diff.Tree.{Tree}
use synchrotron.Diff.Compare.{
  added, Differ, extract_keys, passed, take_match, removed_items, diff_items, diff_listmap,
}

append-nil_iff {ℓ} : {A : Type ℓ} (xs ys : List A) → (xs ++ ys ≡ []) ↔ ((xs ≡ []) × (ys ≡ []))
append-nil_iff [] ys = ground arith
append-nil_iff (x ∷ xs) ys = ground arith

-- The elements that are not taken.
abbrev free : {V : Type 0} → List (Bool × V) → List V
free [] = []
free ((true, v) ∷ live) = free live
free ((false, v) ∷ live) = v ∷ free live

free-map : {V : Type 0} (vs : List V) → free (map (λ v. (false, v)) vs) ≡ vs
free-map [] = refl
free-map (v ∷ vs) = ap (λ l. v ∷ l) (free-map vs)

module _ {Y : Yaml} (T : Tree Y) (keys : List String) where
  abbrev Taken :
      List (Text × Text) → List (Bool × Y.Value) → Option (Y.Value × List (Bool × Y.Value)) → Type 0
  Taken pairs live none =
      (v : Y.Value) → Mem v (free live) → (extract_keys T v keys == pairs) ≡ false
  Taken pairs live (some (l, live')) =
      (extract_keys T l keys ≡ pairs) × Perm (l ∷ free live') (free live)

  passed-Taken :
      (pairs : List (Text × Text)) (l : Y.Value) (live : List (Bool × Y.Value))
      (found : Option (Y.Value × List (Bool × Y.Value)))
      → (extract_keys T l keys == pairs) ≡ false
      → Taken pairs live found
      → Taken pairs ((false, l) ∷ live) (passed T (false, l) found)
  passed-Taken pairs l live none other t =
      λ v m. Or.elim (hlevel) (mem-cons.0 m) (λ e. rw e other) (t v)
  passed-Taken pairs l live (some (found, rest)) other t =
      (t.0, Perm.trans (Perm.swap l found (free rest)) (Perm.cons l t.1))

  reach-Taken :
      (pairs : List (Text × Text)) (l : Y.Value) (live : List (Bool × Y.Value))
      (found : Option (Y.Value × List (Bool × Y.Value)))
      → Taken pairs live found
      → Taken pairs ((true, l) ∷ live) (passed T (true, l) found)
  reach-Taken pairs l live none t = t
  reach-Taken pairs l live (some (found, rest)) t = t

  take_match-Taken :
      (pairs : List (Text × Text)) (live : List (Bool × Y.Value))
      → Taken pairs live (take_match T keys pairs live)
  unfolding take_match
  take_match-Taken pairs [] = λ v m. absurd (not-mem-nil m)
  take_match-Taken pairs ((true, l) ∷ live) =
      reach-Taken pairs l live (take_match T keys pairs live) (take_match-Taken pairs live)
  take_match-Taken pairs ((false, l) ∷ live) =
      if_cases (Taken pairs ((false, l) ∷ live)) (extract_keys T l keys == pairs) _ _
        (λ same. ((list_beq_iff (extract_keys T l keys) pairs).0 same, Perm.rfl))
        (λ other.
          passed-Taken pairs l live (take_match T keys pairs live) other
            (take_match-Taken pairs live))

  removed_items-free :
      (live : List (Bool × Y.Value)) (path : ValuePath)
      → (removed_items T keys live path ≡ []) ↔ (free live ≡ [])
  unfolding removed_items
  removed_items-free [] path = ground arith
  removed_items-free ((true, l) ∷ live) path = removed_items-free live path
  removed_items-free ((false, l) ∷ live) path = ground arith

  -- Desired elements and live elements that pair up: by their keys, and with nothing to report.
  abbrev pub Paired : Differ T → ValuePath → (desired live : List Y.Value) → Type 0
  Paired rec path [] [] = Unit
  Paired rec path (d ∷ ds) (l ∷ ls) =
      (extract_keys T l keys ≡ extract_keys T d keys)
      × (rec d l (push path (keyed (extract_keys T d keys))) ≡ [])
      × Paired rec path ds ls
  Paired rec path _ _ = ⊥

  -- The keys tell the elements apart.
  abbrev pub KeysTellApart : List Y.Value → Type 0
  KeysTellApart vs =
      (v w : Y.Value) → Mem v vs → Mem w vs → extract_keys T v keys ≡ extract_keys T w keys → v ≡ w

  module _ (rec : Differ T) (path : ValuePath) where
    pairs_from :
        (desired : List Y.Value) (live : List (Bool × Y.Value))
        → diff_items T rec keys desired live path ≡ []
        → (zs : List Y.Value) × Perm zs (free live) × Paired rec path desired zs
    unfolding diff_items
    pairs_from [] live h =
        ([], subst (λ l. Perm [] l) (sym ((removed_items-free live path).0 h)) Perm.rfl, tt)
    pairs_from (d ∷ desired) live h =
        go (take_match T keys (extract_keys T d keys) live) (take_match-Taken _ live) h
          (λ live'. pairs_from desired live')
      where
        child : ValuePath
        child = push path (keyed (extract_keys T d keys))

        go :
            (o : Option (Y.Value × List (Bool × Y.Value)))
            → Taken (extract_keys T d keys) live o
            → elim o [
              | some (l, live') ↦ rec d l child ++ diff_items T rec keys desired live' path
              | none ↦ added child d ∷ diff_items T rec keys desired live path
            ]
              ≡ []
            → ((live' : List (Bool × Y.Value))
                → diff_items T rec keys desired live' path ≡ []
                → (zs : List Y.Value) × Perm zs (free live') × Paired rec path desired zs)
            → (zs : List Y.Value) × Perm zs (free live) × Paired rec path (d ∷ desired) zs
        go none t h ih = cc
        go (some (l, live')) t h ih =
            let both =
              (append-nil_iff (rec d l child) (diff_items T rec keys desired live' path)).0 h in
            let (zs, perm, paired) = ih live' both.1 in
            (l ∷ zs, Perm.trans (Perm.cons l perm) t.1, (t.0, both.0, paired))

    pairs_to :
        (desired : List Y.Value) (live : List (Bool × Y.Value)) (zs : List Y.Value)
        → KeysTellApart zs
        → Perm zs (free live)
        → Paired rec path desired zs
        → diff_items T rec keys desired live path ≡ []
    unfolding diff_items
    pairs_to [] live [] apart perm paired =
        (removed_items-free live path).1 (sym (Perm.nil-eq perm))
    pairs_to [] live (z ∷ zs) apart perm paired = elim paired [ ]
    pairs_to (d ∷ desired) live [] apart perm paired = elim paired [ ]
    pairs_to (d ∷ desired) live (z ∷ zs) apart perm paired =
        go (take_match T keys (extract_keys T d keys) live) (take_match-Taken _ live) (λ live' p.
          pairs_to desired live' zs
            (λ v w m n. apart v w (mem-cons_of_mem z m) (mem-cons_of_mem z n)) p paired.2)
      where
        child : ValuePath
        child = push path (keyed (extract_keys T d keys))

        go :
            (o : Option (Y.Value × List (Bool × Y.Value)))
            → Taken (extract_keys T d keys) live o
            → ((live' : List (Bool × Y.Value))
                → Perm zs (free live')
                → diff_items T rec keys desired live' path ≡ [])
            → elim o [
              | some (l, live') ↦ rec d l child ++ diff_items T rec keys desired live' path
              | none ↦ added child d ∷ diff_items T rec keys desired live path
            ]
              ≡ []
        go none t ih =
            let z_free : Mem z (free live) = Perm.subset perm z mem-cons_self in
            let same = (list_beq_iff (extract_keys T z keys) (extract_keys T d keys)).1 paired.0 in
            let other = t z z_free in cc
        go (some (l, live')) t ih =
            let l_free : Mem l (free live) = Perm.subset t.1 l mem-cons_self in
            let same =
              apart l z (Perm.subset (Perm.symm perm) l l_free) mem-cons_self
                (t.0 ∙ sym paired.0) in
            let moved = subst (λ x. Perm (x ∷ free live') (free live)) same t.1 in
            (append-nil_iff (rec d l child) (diff_items T rec keys desired live' path)).1 (
              subst (λ x. rec d x child ≡ []) (sym same) paired.1,
              ih live' (Perm.cons_inv (Perm.trans perm (Perm.symm moved))),
            )

    -- Where a list is a map by some keys that tell its live elements apart, the comparison reports
    -- nothing exactly if the live elements, in some order, pair up with the desired ones: by equal
    -- keys, and with nothing to report of either pair. The order of the live list does not matter.
    pub diff_listmap-empty_iff :
        (desired live : List Y.Value)
        → KeysTellApart live
        → (diff_listmap T rec keys desired live path ≡ [])
          ↔ ((zs : List Y.Value) × Perm zs live × Paired rec path desired zs)
    unfolding diff_listmap
    diff_listmap-empty_iff desired live apart =
        let marked = map (λ l. (false, l)) live in
        let all = free-map live in
        (
          λ h.
              let (zs, perm, paired) = pairs_from desired marked h in
              (zs, subst (Perm zs) all perm, paired),
          λ (zs, perm, paired).
              pairs_to desired marked zs
                (λ v w m n. apart v w (Perm.subset perm v m) (Perm.subset perm w n))
                (subst (Perm zs) (sym all) perm) paired,
        )
