-- ===== src/Diff/Pipeline/Samples.antt =====
-- The smart diff on the YAML values of Manifest.Samples, and its theorems at concrete inputs.
use synchrotron.Base.{
  ℕ, ◌+◌, ◌<◌, ◌≡◌, ◌≢◌, refl, false, some, List, [], ◌∷◌, ◌++◌, String, String_eq, ℕ_eq, List_eq,
  ◌==◌, arith, if◌then◌else◌, All, All-imp, map,
}
use synchrotron.Base.Text.{codes}
use synchrotron.Base.Result.{ok}
use synchrotron.Manifest.{Manifest, value}
use synchrotron.Manifest.Stream.{split_slash}
use synchrotron.Manifest.Samples.{Sample, Node, null, bool, int, str, item, field}
use synchrotron.Diff.Tree.{Shape, sequence, mapping, string, boolean, number, parts, Tree, map_get}
use synchrotron.Diff.ListMap.{no_list_maps, keys_for}
use synchrotron.Diff.Compare.{diff, path_of}
use synchrotron.Diff.Ignore.{apply_rules}
use synchrotron.Diff.Ownership.{FilteredDiff, apply_ownership}
use synchrotron.Diff.AutoIgnore.{
  hpa, ScalerEntry, empty_cache, replace_with, parse_scaler, target_of, auto_ignore_rules_for,
}
use synchrotron.Diff.Pipeline.{SmartDiffPipeline, evaluate}
use synchrotron.Diff.Pipeline.Autoscaled.{replicas_path, evaluate-leaves_replicas}

abbrev fields : Node → List (Node × Node)
fields (field k v rest) = (str k, v) ∷ fields rest
fields _ = []

abbrev items : Node → List Node
items (item v rest) = v ∷ items rest
items _ = []

abbrev node_shape : Node → Shape Node
node_shape null = Shape.null
node_shape (bool b) = boolean b
node_shape (int n) = number []
node_shape (str s) = string (codes s)
node_shape (item v rest) = sequence (v ∷ items rest)
node_shape (field k v rest) = mapping ((str k, v) ∷ fields rest)

abbrev size : Node → ℕ
size (item v rest) = size v + size rest + 1
size (field k v rest) = size v + size rest + 1
size _ = 1

size-fields : (n : Node) → All (λ w. size w < size n + 1) (map (λ e. e.1) (fields n))
size-fields (field k v rest) =
    (omega arith, All-imp _ (λ w (p : size w < size rest + 1). omega arith) _ (size-fields rest))
size-fields null = tt
size-fields (bool b) = tt
size-fields (int n) = tt
size-fields (str s) = tt
size-fields (item v rest) = tt

size-items : (n : Node) → All (λ w. size w < size n + 1) (items n)
size-items (item v rest) =
    (omega arith, All-imp _ (λ w (p : size w < size rest + 1). omega arith) _ (size-items rest))
size-items null = tt
size-items (bool b) = tt
size-items (int n) = tt
size-items (str s) = tt
size-items (field k v rest) = tt

size-parts : (n : Node) → All (λ w. size w < size n) (parts (node_shape n))
size-parts null = tt
size-parts (bool b) = tt
size-parts (int n) = tt
size-parts (str s) = tt
size-parts (item v rest) =
    (omega arith, All-imp (λ w. size w < size rest + 1) (λ w p. omega arith) _ (size-items rest))
size-parts (field k v rest) =
    (omega arith, All-imp (λ w. size w < size rest + 1) (λ w p. omega arith) _ (size-fields rest))

abbrev chain : List (Node × Node) → Node
chain ((str k, v) ∷ m) = field k v (chain m)
chain _ = null

abbrev drop_field : List (Node × Node) → String → List (Node × Node)
drop_field ((str j, v) ∷ m) k = if j == k then m else (str j, v) ∷ drop_field m k
drop_field _ k = []

abbrev nodes : Tree Sample
nodes = record {
  shape = node_shape;
  rank = size;
  rank_parts = size-parts;
  from_string = λ s. if s == codes "metadata" then str "metadata" else str "";
  from_mapping = chain;
  remove = drop_field;
  debug = λ v. [];
  print = λ v. [];
}

abbrev object : String → String → String → Node → Manifest Sample
object group kind name body = record {
  gvk = record { group = group; version = "v1"; kind = kind };
  name = name;
  namespace = some "app";
  body = record { address = 1; bytes = []; hash = 0; parsed = some body };
}

abbrev web : String → Manifest Sample
web replicas =
    object "apps" "Deployment" "web"
      (field "spec" (field "replicas" (str replicas) (field "paused" (bool false) null)) null)

abbrev target_ref : Node
target_ref =
    field "apiVersion" (str "apps/v1")
      (field "kind" (str "Deployment") (field "name" (str "web") null))

abbrev pub autoscaler : Manifest Sample
autoscaler =
    object "autoscaling" "HorizontalPodAutoscaler" "web"
      (field "spec" (field "scaleTargetRef" target_ref null) null)

abbrev claimed : ScalerEntry
claimed = record {
  controller = hpa;
  target = target_of (web "5");
  ignored_paths = "spec.replicas" ∷ [];
}

abbrev as_is : SmartDiffPipeline Sample
as_is = record {
  normalize = ok;
  list_maps = no_list_maps;
  user_rules = record { rules = [] };
  ownership = record { our_manager = "synchrotron" };
}

autoscaler_parsed : parse_scaler Sample autoscaler ≡ some claimed
unfolding parse_scaler value split_slash
autoscaler_parsed = refl

abbrev nothing : FilteredDiff Node
nothing = record { drift = []; informational = [] }

nothing_left :
    evaluate nodes as_is (web "3") (web "5") (replace_with empty_cache ([] ++ claimed ∷ []))
    ≡ ok nothing
unfolding evaluate diff keys_for value map_get apply_ownership apply_rules auto_ignore_rules_for
    replace_with
nothing_left = refl

evaluate-leaves_replicas_example :
    All (λ c. path_of c ≢ replicas_path) nothing.drift
    × All (λ c. path_of c ≢ replicas_path) nothing.informational
evaluate-leaves_replicas_example =
    evaluate-leaves_replicas nodes as_is (web "3") (web "5") autoscaler empty_cache [] [] claimed
      nothing autoscaler_parsed (λ e. cc) refl nothing_left
