-- ===== src/Diff/Samples.antt =====
-- A small tree of values that meets the laws of the YAML library, and the comparison on it.
use mathlib.Core.List.{Perm, mem-singleton}
use mathlib.Core.HLevel.{hedberg}
use synchrotron.Base.{
  ℕ, ◌+◌, ◌<◌, ◌≡◌, ◌↔◌, refl, sym, inl, inr, Bool, true, false, ◌&&◌, Option, none, some, List, [],
  ◌∷◌, String, String_eq, ℕ_eq, List_eq, ◌==◌, ◌∙◌, eq_symm, Bool-cases, arith, if◌then◌else◌, All,
  eq_self,
}
use synchrotron.Base.Text.{codes, decimal}
use synchrotron.Base.Map.{insert}
use synchrotron.Manifest.{Yaml, Manifest, value}
use synchrotron.Manifest.Samples.{String_discrete}
use synchrotron.Diff.Paths.{field, index, keyed, ValuePath, display}
use synchrotron.Diff.Tree.{
  Shape, string, sequence, mapping, parts, Tree, IsTree, SameParts, HasFunctional, map_get,
}
use synchrotron.Diff.ListMap.{keys_for}
use synchrotron.Diff.ListMap.Defaults.{defaults}
use synchrotron.Diff.Compare.{modified, diff_value, diff_listmap, diff}
use synchrotron.Diff.Compare.Keyed.{KeysTellApart, Paired, diff_listmap-empty_iff}
use synchrotron.Diff.Ignore.{path_to_json_pointer}
use synchrotron.Diff.Ignore.Pointer.{read_pointer, read-path_to_json_pointer}

-- A word, a mapping of no or one field, a sequence of two.
data Small : Type 0 where
  word : String → Small
  bare : Small
  one : String → Small → Small
  pair : Small → Small → Small

abbrev small_beq : Small → Small → Bool
small_beq (word s) (word t) = s == t
small_beq bare bare = true
small_beq (one k v) (one j w) = k == j && small_beq v w
small_beq (pair a b) (pair c d) = small_beq a c && small_beq b d
small_beq _ _ = false

abbrev small_get : Small → String → Option Small
small_get (one k v) key = if k == key then some v else none
small_get _ key = none

abbrev small_str : Small → Option String
small_str (word s) = some s
small_str _ = none

abbrev small_items : Small → Option (List Small)
small_items (pair a b) = some (a ∷ b ∷ [])
small_items _ = none

abbrev Smalls : Yaml
Smalls = record {
  Value = Small;
  value_beq = small_beq;
  is_null = λ v. false;
  get = small_get;
  as_str = small_str;
  as_i64 = λ v. none;
  as_bool = λ v. none;
  as_sequence = small_items;
  to_vec = λ v. some [];
  from_slice = λ bytes. bare;
}

abbrev small_shape : Small → Shape Small
small_shape (word s) = string (codes s)
small_shape bare = mapping []
small_shape (one k v) = mapping ((word k, v) ∷ [])
small_shape (pair a b) = sequence (a ∷ b ∷ [])

abbrev small_rank : Small → ℕ
small_rank (word s) = 0
small_rank bare = 0
small_rank (one k v) = small_rank v + 1
small_rank (pair a b) = small_rank a + small_rank b + 1

small_rank-parts : (v : Small) → All (λ w. small_rank w < small_rank v) (parts (small_shape v))
small_rank-parts (word s) = tt
small_rank-parts bare = tt
small_rank-parts (one k v) = omega arith
small_rank-parts (pair a b) = omega arith

abbrev small_mapping : List (Small × Small) → Small
small_mapping ((word k, v) ∷ m) = one k v
small_mapping _ = bare

abbrev small_remove : List (Small × Small) → String → List (Small × Small)
small_remove [] k = []
small_remove ((j, v) ∷ m) k = if small_beq j (word k) then m else (j, v) ∷ small_remove m k

abbrev small : Tree Smalls
small = record {
  shape = small_shape;
  rank = small_rank;
  rank_parts = small_rank-parts;
  from_string = λ s. if s == codes "metadata" then word "metadata" else word "";
  from_mapping = small_mapping;
  remove = small_remove;
  debug = λ v. codes "?";
  print = λ v. codes "?";
}

small_refl : (v : Small) → small_beq v v ≡ true
small_refl (word s) = eq_self s
small_refl bare = refl
small_refl (one k v) = ground (arith, eq_self k, small_refl v)
small_refl (pair a b) = ground (arith, small_refl a, small_refl b)

small_parts :
    (v w : Small)
    → (small_beq v w ≡ true)
      ↔ SameParts small_beq (small_beq v w ≡ true) (small_shape v) (small_shape w)
unfolding map_get
small_parts (word s) w = ground arith
small_parts bare bare = ground arith
small_parts bare (word t) = ground arith
small_parts bare (one j w) = (λ h. cc, λ h. cc (h.1.0))
small_parts bare (pair c d) = ground arith
small_parts (one k v) bare = (λ h. cc, λ h. absurd h.0.0)
small_parts (one k v) (word t) = ground arith
small_parts (one k v) (one j w) = elim (Bool-cases (k == j)) [
  | inl h ↦
      let back : (j == k) ≡ true = eq_symm j k ∙ h in
      rw (h, back) (λ q. ((q, tt), (refl, tt)), λ q. q.0.0)
  | inr h ↦
      let back : (j == k) ≡ false = eq_symm j k ∙ h in rw (h, back) (λ q. cc, λ q. absurd q.0.0)
]
small_parts (one k v) (pair c d) = ground arith
small_parts (pair a b) (pair c d) = ground arith
small_parts (pair a b) bare = ground arith
small_parts (pair a b) (word t) = ground arith
small_parts (pair a b) (one j w) = ground arith

small_keys : (v : Small) → HasFunctional small_beq (small_shape v)
unfolding map_get
small_keys (word s) = tt
small_keys bare = tt
small_keys (one k v) = (rw (eq_self k), tt)
small_keys (pair a b) = tt

small-IsTree : IsTree small
small-IsTree = record { reflexive = small_refl; parts_decide = small_parts; keys_once = small_keys }

abbrev deployment : Small → Manifest Smalls
deployment body = record {
  gvk = record { group = "apps"; version = "v1"; kind = "Deployment" };
  name = "web";
  namespace = some "app";
  body = record { address = 1; bytes = []; hash = 0; parsed = some body };
}

abbrev replicas : String → Manifest Smalls
replicas n = deployment (one "spec" (one "replicas" (word n)))

abbrev containers : Small → Small → Manifest Smalls
containers a b = deployment (one "spec" (one "containers" (pair a b)))

abbrev named : String → Small
named n = one "name" (word n)

replicas_differ :
    diff small (replicas "3") (replicas "5") defaults
    ≡ modified
        (record { segments = field (codes "spec") ∷ field (codes "replicas") ∷ [] })
        (word "3")
        (word "5")
      ∷ []
unfolding diff defaults keys_for value map_get
replicas_differ = refl

-- The containers are matched by their names.
reordered :
    diff small (containers (named "a") (named "b")) (containers (named "b") (named "a")) defaults
    ≡ []
unfolding diff defaults keys_for value map_get insert
reordered = refl

Small-discrete : Discrete Small
Small-discrete = hlevel (String_discrete)

Small-set : IsSet Small
Small-set = hedberg Small-discrete

one_name : KeysTellApart small ("name" ∷ []) (named "a" ∷ [])
one_name v w m n e = (mem-singleton Small-set).0 m ∙ sym ((mem-singleton Small-set).0 n)

abbrev below : ValuePath
below = record { segments = field (codes "spec") ∷ field (codes "containers") ∷ [] }

diff_listmap-empty_iff_example :
    (diff_listmap small
        (diff_value small (keys_for defaults (replicas "1").gvk) 3)
        ("name" ∷ [])
        (named "a" ∷ [])
        (named "a" ∷ [])
        below
      ≡ [])
    ↔ ((zs : List Small) × Perm zs (named "a" ∷ [])
        × Paired small
            ("name" ∷ [])
            (diff_value small (keys_for defaults (replicas "1").gvk) 3)
            below
            (named "a" ∷ [])
            zs)
diff_listmap-empty_iff_example =
    diff_listmap-empty_iff small ("name" ∷ [])
      (diff_value small (keys_for defaults (replicas "1").gvk) 3) below (named "a" ∷ [])
      (named "a" ∷ []) one_name

-- A name with a slash, an index and a key.
abbrev winding : ValuePath
winding = record {
  segments =
      field (codes "a/b~c")
      ∷ index 12
      ∷ keyed ((codes "name", codes "app") ∷ (codes "port", codes "80") ∷ [])
      ∷ [];
}

winding_pointer : path_to_json_pointer winding ≡ codes "/a~1b~0c/12/app"
unfolding path_to_json_pointer decimal
winding_pointer = refl

winding-display : display winding ≡ codes "a/b~c[12][name=app,port=80]"
unfolding display decimal
winding-display = refl

read-path_to_json_pointer_example :
    read_pointer (path_to_json_pointer winding) ≡ codes "a/b~c" ∷ codes "12" ∷ codes "app" ∷ []
unfolding decimal
read-path_to_json_pointer_example = read-path_to_json_pointer winding
