-- ===== src/Wave/Grouping.antt =====
-- What the split into waves promises, crates/synchrotron-reconcile/src/wave.rs.
use mathlib.Core.List.{append-nil, append_assoc}
use synchrotron.Base.{
  ◌≡◌, ◌⊎◌, refl, sym, ap, ◌∙◌, Bool, true, false, Bool-cases, inl, inr, Option, none, some, List,
  [], ◌∷◌, ◌++◌, map, arith, ◌==◌, if◌then◌else◌, filter, filter-append,
}
use synchrotron.Base.Int.{ℤ, ℤ_eq, int_beq, int_beq_iff, compare_ℤ, compare_ℤ-IsTotalOrder}
use synchrotron.Base.Map.{
  Map, get, insert, contains_key, is_some, get-insert, KeysNodup, insert-KeysNodup,
}
use synchrotron.Base.Options.{or_else}
use synchrotron.Base.Order.{Ordering, IsTotalOrder, by_key, by_key-IsTotalOrder}
use synchrotron.Base.Sorting.{IsSortedBy, sort_by-IsSortedBy}
use synchrotron.Base.Keyed.{find_key, KeysOnce, sort_by-KeysOnce}
use synchrotron.Manifest.{Yaml, Manifest}
use synchrotron.Plan.Resources.{ResourceRef, ResourceRef_eq, ref_beq, ref_beq_iff, of}
use synchrotron.Plan.{PlanEntry, Plan, insert_all, index}
use synchrotron.Plan.Lookup.{find_last, get-index}
use synchrotron.KindOrder.{sort_within_wave}
use synchrotron.Wave.{
  WaveGroup, fill_all, manifest_by_ref, wave_or_default, push, append_to, split, group_of,
  group_into_waves,
}

module _ {Y : Yaml} where
  -- The first manifest of a list for a resource.
  unfoldable pub find_first : List (Manifest Y) → ResourceRef → Option (Manifest Y)
  find_first [] r = none
  find_first (m ∷ ms) r = if of m == r then some m else find_first ms r

  -- The wave of a resource: its last desired manifest says it, or else its first live one.
  abbrev pub wave_for : List (Manifest Y) → List (Manifest Y) → ResourceRef → ℤ
  wave_for desired live r = wave_or_default (or_else (find_last desired r) (find_first live r))

  known :
      (by_ref : Map ResourceRef (Manifest Y)) (m : Manifest Y) (ms : List (Manifest Y))
      (r : ResourceRef)
      → contains_key by_ref (of m) ≡ true
      → (ref_beq (of m) r ≡ true) ⊎ (ref_beq (of m) r ≡ false)
      → or_else (get by_ref r) (find_first ms r)
        ≡ or_else (get by_ref r) (if ref_beq (of m) r then some m else find_first ms r)
  known by_ref m ms r h (inr other) = rw other refl
  known by_ref m ms r h (inl same) =
      held (get by_ref r) (ap (contains_key by_ref) (sym ((ref_beq_iff (of m) r).0 same)) ∙ h)
    where
      held :
          (o : Option (Manifest Y))
          → is_some o ≡ true
          → or_else o (find_first ms r)
            ≡ or_else o (if ref_beq (of m) r then some m else find_first ms r)
      held none e = cc e
      held (some a) e = refl

  fresh :
      (by_ref : Map ResourceRef (Manifest Y)) (m : Manifest Y) (ms : List (Manifest Y))
      (r : ResourceRef)
      → contains_key by_ref (of m) ≡ false
      → (ref_beq (of m) r ≡ true) ⊎ (ref_beq (of m) r ≡ false)
      → or_else (get (insert by_ref (of m) m) r) (find_first ms r)
        ≡ or_else (get by_ref r) (if ref_beq (of m) r then some m else find_first ms r)
  fresh by_ref m ms r h (inr other) = rw (get-insert, other) refl
  fresh by_ref m ms r h (inl same) =
      rw (get-insert, same)
        (vacant (get by_ref r) (ap (contains_key by_ref) (sym ((ref_beq_iff (of m) r).0 same)) ∙ h))
    where
      vacant : (o : Option (Manifest Y)) → is_some o ≡ false → some m ≡ or_else o (some m)
      vacant none e = refl
      vacant (some a) e = cc e

  get-fill_all :
      (by_ref : Map ResourceRef (Manifest Y)) (ms : List (Manifest Y)) (r : ResourceRef)
      → get (fill_all by_ref ms) r ≡ or_else (get by_ref r) (find_first ms r)
  unfolding fill_all find_first
  get-fill_all by_ref [] r = ground arith
  get-fill_all by_ref (m ∷ ms) r = elim (Bool-cases (contains_key by_ref (of m))) [
    | inl h ↦
        rw h (get-fill_all by_ref ms r ∙ known by_ref m ms r h (Bool-cases (ref_beq (of m) r)))
    | inr h ↦ rw h (
        get-fill_all (insert by_ref (of m) m) ms r
        ∙ fresh by_ref m ms r h (Bool-cases (ref_beq (of m) r)))
  ]

  get-manifest_by_ref :
      (desired live : List (Manifest Y)) (r : ResourceRef)
      → get (manifest_by_ref desired live) r ≡ or_else (find_last desired r) (find_first live r)
  unfolding manifest_by_ref
  get-manifest_by_ref desired live r =
      get-fill_all (insert_all [] desired) live r
      ∙ ap (λ o. or_else o (find_first live r)) (unfold index in get-index desired r)

abbrev bucket : List PlanEntry → Option (List PlanEntry)
bucket [] = none
bucket (e ∷ es) = some (e ∷ es)

snoc :
    (l : List PlanEntry) (o : Option (List PlanEntry)) (e : PlanEntry)
    → o ≡ bucket l
    → some (append_to o e) ≡ bucket (l ++ e ∷ [])
snoc [] o e h = ap (λ x. some (append_to x e)) h
snoc (x ∷ l) o e h = ap (λ y. some (append_to y e)) h

-- The map after the loop holds under each wave its entries in the order of the plan.
module _ {Y : Yaml} (by_ref : Map ResourceRef (Manifest Y)) where
  abbrev looked_up : PlanEntry → ℤ
  looked_up e = wave_or_default (get by_ref e.resource)

  abbrev of_wave : ℤ → List PlanEntry → List PlanEntry
  of_wave w = filter (λ e. looked_up e == w)

  pushed :
      (by_wave : Map ℤ (List PlanEntry)) (done : List PlanEntry) (e : PlanEntry)
      → ((w : ℤ) → get by_wave w ≡ bucket (of_wave w done))
      → (w : ℤ) → get (push by_wave (looked_up e) e) w ≡ bucket (of_wave w (done ++ e ∷ []))
  pushed by_wave done e inv w = elim (Bool-cases (int_beq (looked_up e) w)) [
    | inl same ↦
        rw (get-insert, filter-append, same)
          (snoc (of_wave w done) (get by_wave (looked_up e)) e (
            inv (looked_up e)
            ∙ ap (λ v. bucket (of_wave v done)) ((int_beq_iff (looked_up e) w).0 same)))
    | inr other ↦
        rw (get-insert, filter-append, other)
          (inv w ∙ ap bucket (sym (append-nil (of_wave w done))))
  ]

  get-split :
      (by_wave : Map ℤ (List PlanEntry)) (done todo : List PlanEntry)
      → KeysNodup by_wave
      → ((w : ℤ) → get by_wave w ≡ bucket (of_wave w done))
      → KeysNodup (split by_ref by_wave todo)
        × ((w : ℤ) → get (split by_ref by_wave todo) w ≡ bucket (of_wave w (done ++ todo)))
  unfolding split
  get-split by_wave done [] u inv =
      (u, λ w. inv w ∙ ap (λ l. bucket (of_wave w l)) (sym (append-nil done)))
  get-split by_wave done (e ∷ todo) u inv =
      let (once, found) =
        get-split (push by_wave (looked_up e) e) (done ++ e ∷ []) todo
          (insert-KeysNodup by_wave (looked_up e) _ u) (pushed by_wave done e inv) in
      (once, λ w. found w ∙ ap (λ l. bucket (of_wave w l)) (append_assoc done (e ∷ []) todo))

-- The group of a wave in the result, if the wave has entries.
abbrev pub group_for : ℤ → List PlanEntry → Option WaveGroup
group_for w [] = none
group_for w (e ∷ es) = some (record { wave = w; entries = sort_within_wave (e ∷ es) })

abbrev grouped : ℤ → Option (List PlanEntry) → Option WaveGroup
grouped w none = none
grouped w (some es) = some (record { wave = w; entries = sort_within_wave es })

grouped-bucket : (w : ℤ) (l : List PlanEntry) → grouped w (bucket l) ≡ group_for w l
grouped-bucket w [] = refl
grouped-bucket w (e ∷ es) = refl

find_key-group_of :
    (m : Map ℤ (List PlanEntry)) (w : ℤ)
    → find_key (λ (g : WaveGroup). g.wave) (map group_of m) w ≡ grouped w (get m w)
unfolding find_key get
find_key-group_of [] w = refl
find_key-group_of ((v, es) ∷ m) w = elim (Bool-cases (int_beq v w)) [
  | inl same ↦ rw same (
      ap (λ x. some (record { wave = x; entries = sort_within_wave es }))
        ((int_beq_iff v w).0 same))
  | inr other ↦ rw other (find_key-group_of m w)
]

is_some-grouped : (w : ℤ) (o : Option (List PlanEntry)) → is_some (grouped w o) ≡ is_some o
is_some-grouped w none = refl
is_some-grouped w (some es) = refl

group_of-KeysOnce :
    (m : Map ℤ (List PlanEntry))
    → KeysNodup m
    → KeysOnce (λ (g : WaveGroup). g.wave) (map group_of m)
group_of-KeysOnce [] u = tt
group_of-KeysOnce ((v, es) ∷ m) u = (
  ap is_some (find_key-group_of m v) ∙ is_some-grouped v (get m v) ∙ u.0,
  group_of-KeysOnce m u.1,
)

abbrev pub by_wave_number : WaveGroup → WaveGroup → Ordering
by_wave_number = by_key compare_ℤ (λ g. g.wave)

by_wave_number-IsTotalOrder : IsTotalOrder by_wave_number
by_wave_number-IsTotalOrder =
    by_key-IsTotalOrder compare_ℤ (λ g. g.wave) compare_ℤ-IsTotalOrder.flips
      compare_ℤ-IsTotalOrder.trans

-- The split of a plan into waves is in ascending order of the wave numbers, each number stands
-- once, and the group of a number holds exactly the plan's entries with that wave, in the order of
-- `sort_within_wave`; a number without entries has no group. The wave of an entry is that of
-- its resource's last desired manifest, else of its first live one, else the default.
pub group_into_waves-eq-group_for :
    {Y : Yaml} (p : Plan) (desired live : List (Manifest Y))
    → let waves = (group_into_waves p desired live).waves in
      IsSortedBy by_wave_number waves
      × KeysOnce (λ (g : WaveGroup). g.wave) waves
      × ((w : ℤ)
          → find_key (λ (g : WaveGroup). g.wave) waves w
            ≡ group_for w (filter (λ e. wave_for desired live e.resource == w) p.entries))
unfolding group_into_waves
group_into_waves-eq-group_for p desired live =
    let by_ref = manifest_by_ref desired live in
    let (once, found) = get-split by_ref [] [] p.entries tt (λ w. unfold get in refl) in
    let by_wave = split by_ref [] p.entries in
    let (sorted_once, sorted_found) =
      sort_by-KeysOnce (λ (g : WaveGroup). g.wave) by_wave_number (map group_of by_wave)
        (group_of-KeysOnce by_wave once) in
    (
      sort_by-IsSortedBy by_wave_number by_wave_number-IsTotalOrder (map group_of by_wave),
      sorted_once,
      λ w.
          sorted_found w
          ∙ find_key-group_of by_wave w
          ∙ ap (grouped w) (found w)
          ∙ grouped-bucket w _
          ∙ ap (group_for w) (
              filter_same
                (λ e.
                  ap (λ o. wave_or_default o == w) (get-manifest_by_ref desired live e.resource))
                p.entries),
    )
  where
    filter_same :
        {f g : PlanEntry → Bool}
        → ((e : PlanEntry) → f e ≡ g e)
        → (l : List PlanEntry) → filter f l ≡ filter g l
    filter_same h [] = refl
    filter_same h (e ∷ l) = ground (arith, h e, filter_same h l)
