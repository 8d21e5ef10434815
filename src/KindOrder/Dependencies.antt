-- ===== src/KindOrder/Dependencies.antt =====
-- What the order within a wave promises, crates/synchrotron-reconcile/src/kind_order.rs.
use Prim.Native.Nat.{compare as compare_ℕ}
use Prim.Native.String.{compare as compare_str}
use mathlib.Core.List.{Perm, Pairwise}
use mathlib.Core.List.Pairwise
use synchrotron.Base.{
  ℕ, suc, ◌+◌, ◌≤◌, ◌≡◌, refl, sym, ap, subst, ◌∙◌, inl, inr, true, false, Option, none, some, List,
  [], ◌∷◌, String, String_eq, ◌==◌, arith, if◌then◌else◌, length, ltb, contains, All, All-imp, Bool,
  Bool-cases, nat_eq, ◌&&◌, ℕ_eq,
}
use synchrotron.Base.Map.{Map, get, is_some}
use synchrotron.Base.Order.{
  Ordering, IsTotalOrder, by_key, by_key-IsTotalOrder, descending, descending-IsTotalOrder,
  lexicographic, lexicographic-IsTotalOrder, compare_option, compare_option-IsTotalOrder,
  compare_ℕ-IsTotalOrder, compare_str-IsTotalOrder, not_gt, and_then, rev,
}
use synchrotron.Base.Sorting.{IsSortedBy, sort_by-IsSortedBy, sort_by-perm}
use synchrotron.Plan.{PlannedAction, apply, delete, noop, PlanEntry}
use synchrotron.KindOrder.{
  priorities, or_default_priority, apply_priority, action_class, priority_of, compare_priority,
  compare_names, compare_within, sort_within_wave,
}

-- The priorities that count for entries that are not deleted, and for those that are.
abbrev up_key : PlannedAction → ℕ → ℕ
up_key delete n = 0
up_key _ n = n

abbrev down_key : PlannedAction → ℕ → ℕ
down_key delete n = n
down_key _ n = 0

abbrev by_parts : PlanEntry → PlanEntry → Ordering
by_parts = lexicographic (by_key compare_ℕ (λ e. action_class e.action)) (
    lexicographic (by_key compare_ℕ (λ e. up_key e.action (priority_of e))) (
      lexicographic (descending (by_key compare_ℕ (λ e. down_key e.action (priority_of e))))
        compare_names))

same_parts :
    (a b : PlannedAction) (m n : ℕ) (names : Ordering)
    → and_then
        (compare_ℕ (action_class a) (action_class b))
        (and_then (compare_priority a m n) names)
      ≡ and_then (compare_ℕ (action_class a) (action_class b)) (
          and_then
            (compare_ℕ (up_key a m) (up_key b n))
            (and_then (compare_ℕ (down_key b n) (down_key a m)) names))
same_parts apply apply m n names = refl
same_parts apply delete m n names = refl
same_parts apply noop m n names = refl
same_parts delete apply m n names = refl
same_parts delete delete m n names = refl
same_parts delete noop m n names = refl
same_parts noop apply m n names = refl
same_parts noop delete m n names = refl
same_parts noop noop m n names = refl

number_key-IsTotalOrder : (key : PlanEntry → ℕ) → IsTotalOrder (by_key compare_ℕ key)
number_key-IsTotalOrder key =
    by_key-IsTotalOrder compare_ℕ key compare_ℕ-IsTotalOrder.flips compare_ℕ-IsTotalOrder.trans

text_key-IsTotalOrder : (key : PlanEntry → String) → IsTotalOrder (by_key compare_str key)
text_key-IsTotalOrder key =
    by_key-IsTotalOrder compare_str key compare_str-IsTotalOrder.flips
      compare_str-IsTotalOrder.trans

compare_names-IsTotalOrder : IsTotalOrder compare_names
compare_names-IsTotalOrder =
    let o = compare_option-IsTotalOrder compare_str compare_str-IsTotalOrder in
    lexicographic-IsTotalOrder _ _ (text_key-IsTotalOrder (λ e. e.resource.gvk.kind)) (
      lexicographic-IsTotalOrder _ _
        (by_key-IsTotalOrder (compare_option compare_str) (λ (e : PlanEntry). e.resource.namespace)
          o.flips o.trans)
        (text_key-IsTotalOrder (λ e. e.resource.name)))

by_parts-IsTotalOrder : IsTotalOrder by_parts
by_parts-IsTotalOrder =
    lexicographic-IsTotalOrder _ _ (number_key-IsTotalOrder (λ e. action_class e.action)) (
      lexicographic-IsTotalOrder _ _
        (number_key-IsTotalOrder (λ e. up_key e.action (priority_of e)))
        (lexicographic-IsTotalOrder _ _
          (descending-IsTotalOrder _
            (number_key-IsTotalOrder (λ e. down_key e.action (priority_of e))))
          compare_names-IsTotalOrder))

same : (a b : PlanEntry) → compare_within a b ≡ by_parts a b
same a b = same_parts a.action b.action (priority_of a) (priority_of b) (compare_names a b)

compare_within-IsTotalOrder : IsTotalOrder compare_within
compare_within-IsTotalOrder = record {
  flips = λ a b. same b a ∙ by_parts-IsTotalOrder.flips a b ∙ ap rev (sym (same a b));
  trans = λ a b c h k.
      ap not_gt (same a c)
      ∙ by_parts-IsTotalOrder.trans a b c (ap not_gt (sym (same a b)) ∙ h)
          (ap not_gt (sym (same b c)) ∙ k);
}

-- The kinds that others need, in layers: what stands in a layer needs at most what stands before it.
abbrev early : List (List String)
early =
    ("Namespace" ∷ [])
    ∷ ("NetworkPolicy" ∷ [])
    ∷ ("ResourceQuota" ∷ [])
    ∷ ("LimitRange" ∷ [])
    ∷ ("PodSecurityPolicy" ∷ [])
    ∷ ("PodDisruptionBudget" ∷ [])
    ∷ ("ServiceAccount" ∷ [])
    ∷ ("Secret" ∷ "SecretList" ∷ [])
    ∷ ("ConfigMap" ∷ [])
    ∷ ("StorageClass" ∷ [])
    ∷ ("PersistentVolume" ∷ [])
    ∷ ("PersistentVolumeClaim" ∷ [])
    ∷ ("CustomResourceDefinition" ∷ [])
    ∷ ("ClusterRole" ∷ "ClusterRoleList" ∷ [])
    ∷ ("ClusterRoleBinding" ∷ "ClusterRoleBindingList" ∷ [])
    ∷ ("Role" ∷ "RoleList" ∷ [])
    ∷ ("RoleBinding" ∷ "RoleBindingList" ∷ [])
    ∷ []

-- The kinds that need others, among them those that are in neither list.
abbrev late : List (List String)
late =
    ("Service" ∷ [])
    ∷ ("DaemonSet" ∷ [])
    ∷ ("Pod" ∷ [])
    ∷ ("ReplicationController" ∷ [])
    ∷ ("ReplicaSet" ∷ [])
    ∷ ("Deployment" ∷ [])
    ∷ ("HorizontalPodAutoscaler" ∷ [])
    ∷ ("StatefulSet" ∷ [])
    ∷ ("Job" ∷ [])
    ∷ ("CronJob" ∷ [])
    ∷ ("Ingress" ∷ [])
    ∷ ("APIService" ∷ [])
    ∷ []

-- The place of the first layer with the kind, or the number of layers if there is none
abbrev index : List (List String) → String → ℕ
index [] kind = 0
index (layer ∷ layers) kind =
    let later = index layers kind in if contains layer kind then 0 else suc later

-- The layer of a kind; those in neither list come between the two.
abbrev pub level : String → ℕ
level kind =
    if ltb (index late kind) (length late)
    then suc (length early + index late kind)
    else index early kind

-- How many of the given numbers lie below
abbrev below : List ℕ → ℕ → ℕ
below [] n = 0
below (t ∷ ts) n = (if ltb t n then 1 else 0) + below ts n

below_mono : (ts : List ℕ) (m n : ℕ) → m ≤ n → below ts m ≤ below ts n
below_mono [] m n h = omega arith
below_mono (t ∷ ts) m n h = ground (arith, below_mono ts m n h)

abbrev numbers : List ℕ
numbers =
    100 ∷ 110 ∷ 120 ∷ 130 ∷ 140 ∷ 150 ∷ 200 ∷ 210 ∷ 220 ∷ 300 ∷ 310 ∷ 320 ∷ 400 ∷ 500 ∷ 510 ∷ 520
    ∷ 530 ∷ 1000 ∷ 1500 ∷ 1600 ∷ 1610 ∷ 1620 ∷ 1630 ∷ 1640 ∷ 1650 ∷ 1660 ∷ 1670 ∷ 1680 ∷ 1800 ∷ 1810
    ∷ []

found-row :
    (P : String → ℕ → Type 0) (table : Map String ℕ) (kind : String) (n : ℕ)
    → All (λ row. P row.0 row.1) table
    → get table kind ≡ some n
    → P kind n
unfolding get
found-row P [] kind n all h = cc h
found-row P ((k, v) ∷ table) kind n (p, all) h = elim (Bool-cases (k == kind)) [
  | inl e ↦
      let same : some v ≡ some n =
        subst (λ b. (if b then some v else get table kind) ≡ some n) e h in
      subst (λ m. P kind m) (cc same) (subst (λ x. P x v) ((String_eq.decides k kind).0 e) p)
  | inr e ↦
      found-row P table kind n all
        (subst (λ b. (if b then some v else get table kind) ≡ some n) e h)
]

absent-layer :
    (table : Map String ℕ) (layer : List String) (kind : String)
    → All (λ name. is_some (get table name) ≡ true) layer
    → get table kind ≡ none
    → contains layer kind ≡ false
absent-layer table [] kind all h = refl
absent-layer table (name ∷ layer) kind (p, all) h = elim (Bool-cases (name == kind)) [
  | inl e ↦ absurd (
      let q = subst (λ x. is_some (get table x) ≡ true) ((String_eq.decides name kind).0 e) p in
      cc (sym (ap is_some h) ∙ q))
  | inr e ↦ rw e (absent-layer table layer kind all h)
]

absent-index :
    (table : Map String ℕ) (layers : List (List String)) (kind : String)
    → All (All (λ name. is_some (get table name) ≡ true)) layers
    → get table kind ≡ none
    → index layers kind ≡ length layers
absent-index table [] kind all h = refl
absent-index table (layer ∷ layers) kind (p, all) h =
    rw (absent-layer table layer kind p h) (ap suc (absent-index table layers kind all h))

every : {A : Type 0} → (A → Bool) → List A → Bool
every test [] = true
every test (a ∷ l) = test a && every test l

every-All :
    {A : Type 0} (test : A → Bool) (l : List A) → every test l ≡ true → All (λ a. test a ≡ true) l
unfolding every
every-All test [] h = tt
every-All test (a ∷ l) h = (ground (arith, h), every-All test l (ground (arith, h)))

are_listed : List (List String) → Bool
unfolding every
are_listed = every (every (λ name. is_some (get priorities name)))

every_listed :
    (layers : List (List String))
    → are_listed layers ≡ true
    → All (All (λ name. is_some (get priorities name) ≡ true)) layers
unfolding are_listed
every_listed layers h =
    All-imp _ (λ layer k. every-All (λ name. is_some (get priorities name)) layer k) layers
      (every-All (every (λ name. is_some (get priorities name))) layers h)

early_listed : are_listed early ≡ true
unfolding are_listed every get
early_listed = refl

late_listed : are_listed late ≡ true
unfolding are_listed every get
late_listed = refl

abbrev agrees : String × ℕ → Bool
agrees row = nat_eq (level row.0) (below numbers row.1)

priorities_agree : every agrees priorities ≡ true
unfolding every
priorities_agree = refl

listed-level : All (λ row. level row.0 ≡ below numbers row.1) priorities
listed-level =
    All-imp _ (λ row h. (ℕ_eq.decides (level row.0) (below numbers row.1)).0 h) priorities
      (every-All agrees priorities priorities_agree)

level_of :
    (kind : String) (o : Option ℕ)
    → get priorities kind ≡ o
    → level kind ≡ below numbers (or_default_priority o)
level_of kind (some n) h =
    found-row (λ k m. level k ≡ below numbers m) priorities kind n listed-level h
level_of kind none h =
    rw
      (
        absent-index priorities late kind (every_listed late late_listed) h,
        absent-index priorities early kind (every_listed early early_listed) h,
      )
      refl

level_mono : (a b : String) → apply_priority a ≤ apply_priority b → level a ≤ level b
unfolding apply_priority
level_mono a b h =
    rw (level_of a (get priorities a) refl, level_of b (get priorities b) refl)
      (below_mono numbers _ _ h)

-- Two entries in the right order: applies (and no-ops) before deletes, applies from lower to higher
-- layers, deletes from higher to lower layers.
abbrev InOrder : PlannedAction → PlannedAction → ℕ → ℕ → Type 0
InOrder delete delete m n = n ≤ m
InOrder delete apply m n = ⊥
InOrder delete noop m n = ⊥
InOrder apply delete m n = Unit
InOrder noop delete m n = Unit
InOrder apply apply m n = m ≤ n
InOrder apply noop m n = m ≤ n
InOrder noop apply m n = m ≤ n
InOrder noop noop m n = m ≤ n

abbrev pub RespectsDependencies : List PlanEntry → Type 0
RespectsDependencies =
    Pairwise
      (λ a b. InOrder a.action b.action (level a.resource.gvk.kind) (level b.resource.gvk.kind))

in_order :
    (x y : PlannedAction) (a b : String) (names : Ordering)
    → not_gt (
        and_then
          (compare_ℕ (action_class x) (action_class y))
          (and_then (compare_priority x (apply_priority a) (apply_priority b)) names))
      ≡ true
    → InOrder x y (level a) (level b)
in_order apply apply a b names h = level_mono a b (ground arith)
in_order apply noop a b names h = level_mono a b (ground arith)
in_order noop apply a b names h = level_mono a b (ground arith)
in_order noop noop a b names h = level_mono a b (ground arith)
in_order delete delete a b names h = level_mono b a (ground arith)
in_order apply delete a b names h = tt
in_order noop delete a b names h = tt
in_order delete apply a b names h = cc h
in_order delete noop a b names h = cc h

-- The sort within a wave rearranges the entries: what is applied or left comes first, from the lower to
-- the higher layers of kinds, and then what is deleted, from the higher to the lower layers. It puts them in ascending order of one total preorder.
pub sort_within_wave-RespectsDependencies :
    (entries : List PlanEntry)
    → RespectsDependencies (sort_within_wave entries)
      × Perm (sort_within_wave entries) entries
      × IsTotalOrder compare_within
      × IsSortedBy compare_within (sort_within_wave entries)
unfolding sort_within_wave
sort_within_wave-RespectsDependencies entries =
    let sorted = sort_by-IsSortedBy compare_within compare_within-IsTotalOrder entries in
    (
      Pairwise.imp
          (λ a b h.
            in_order a.action b.action a.resource.gvk.kind b.resource.gvk.kind (compare_names a b)
              h)
          sorted,
      sort_by-perm compare_within entries,
      compare_within-IsTotalOrder,
      sorted,
    )
