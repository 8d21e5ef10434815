-- ===== src/Prune.antt =====
-- crates/synchrotron-kube/src/prune.rs: which owned resources a sync deletes, in which order, and what the
-- deletion of one returns. The API server is the interface `Api`.
pub mod Sweep
pub mod Samples
use synchrotron.Base.{
  ℕ, ◌+◌, ℕ_eq, List_eq, Bool, true, false, not, ◌&&◌, Option, none, some, List, ◌++◌, String, ◌==◌,
  if◌then◌else◌, filter, map, nat_eq, leb, contains,
}
use synchrotron.Base.Options.{and_then}
use synchrotron.Base.Order.{Ordering, by_key, descending, lexicographic}
use synchrotron.Base.Int.{compare_ℤ}
use synchrotron.Base.Result.{Result, ok, err, ok_or, ◌>>=◌}
use synchrotron.Base.Sorting.{sort_by}
use synchrotron.Base.Text.{codes, trim, split_at}
use synchrotron.Manifest.{Yaml, Gvk, Manifest, value}
use synchrotron.Manifest.Stream.{OwnedResource}
use synchrotron.Plan.Resources.{ResourceRef, ResourceRef_eq, of}
use synchrotron.Plan.{compare_refs}

-- The triple (gvk, namespace, name)
abbrev pub ref_of : OwnedResource → ResourceRef
ref_of r = record { gvk = r.gvk; namespace = r.namespace; name = r.name }

-- The higher wave first, then by the group, version, kind, namespace and name.
abbrev pub sweep_order : OwnedResource → OwnedResource → Ordering
sweep_order =
    lexicographic (descending (by_key compare_ℤ (λ r. r.wave))) (by_key compare_refs ref_of)

module _ {Y : Yaml} where
  -- `desired_keys.contains`
  abbrev pub is_desired : List (Manifest Y) → OwnedResource → Bool
  is_desired desired r = contains (map of desired) (ref_of r)

  unfoldable pub compute_prune_set : List OwnedResource → List (Manifest Y) → List OwnedResource
  compute_prune_set previously_owned currently_desired = sort_by sweep_order (
      filter (λ r. not (is_desired currently_desired r))
        (filter (λ r. not r.prune_disabled) previously_owned))

-- `eq_ignore_ascii_case`
abbrev to_ascii_lowercase : ℕ → ℕ
to_ascii_lowercase c = if leb b'A' c && leb c b'Z' then c + 32 else c

abbrev pub eq_ignore_ascii_case : List ℕ → List ℕ → Bool
eq_ignore_ascii_case s t = map to_ascii_lowercase s == map to_ascii_lowercase t

abbrev pub says_false : Option String → Bool
says_false none = false
says_false (some raw) = eq_ignore_ascii_case (trim (codes raw)) (codes "false")

abbrev pub says_no_prune : Option String → Bool
says_no_prune none = false
says_no_prune (some raw) = contains (map trim (split_at b',' (codes raw))) (codes "Prune=false")

abbrev pub annotations_of : (Y : Yaml) → Manifest Y → Option Y.Value
annotations_of Y m =
    and_then (Y.get (value m.body) "metadata") (λ metadata. Y.get metadata "annotations")

abbrev text_at : (Y : Yaml) → Y.Value → String → Option String
text_at Y ann key = and_then (Y.get ann key) Y.as_str

module _ {Y : Yaml} where
  unfoldable pub is_prune_disabled : Manifest Y → Bool
  unfolding trim split_at
  is_prune_disabled m = elim (annotations_of Y m) [
    | none ↦ false
    | some ann ↦
        if says_false (text_at Y ann "synchrotron.io/prune")
        then true
        else says_no_prune (text_at Y ann "argocd.argoproj.io/sync-options")
  ]

pub data ApplyError : Type 0 where
  server : List ℕ → ApplyError
  transport : List ℕ → ApplyError
  decode : List ℕ → ApplyError

pub data Scope : Type 0 where
  namespaced cluster : Scope

-- `kube::Error`, by the kinds that the source tells apart, with the text of what is inside.
pub data KubeError : Type 0 where
  api : (code : ℕ) (reason message : String) → KubeError
  hyper_error service http_error read_events serde_error build_request other : String → KubeError

-- `map_delete_err`
unfoldable pub map_delete_err : KubeError → ApplyError
map_delete_err (api code reason message) = server (codes reason ++ codes ": " ++ codes message)
map_delete_err (hyper_error inner) = transport (codes inner)
map_delete_err (service inner) = transport (codes inner)
map_delete_err (http_error inner) = transport (codes inner)
map_delete_err (read_events inner) = transport (codes inner)
map_delete_err (serde_error inner) = decode (codes inner)
map_delete_err (build_request inner) = decode (codes inner)
map_delete_err (other inner) = transport (codes inner)

-- Discovery, and the deletion of a name in a namespace or of the whole cluster; either may change
-- the server's state.
pub record Api : Type 1 where
  pub World : Type 0
  pub discover : World → Gvk → Result Scope ApplyError × World
  pub delete : World → Gvk → Option String → String → Result (Unit {0}) KubeError × World

-- A resource that is gone already counts as deleted.
abbrev pub deletion_result : Result (Unit {0}) KubeError → Result (Unit {0}) ApplyError
deletion_result (ok _) = ok tt
deletion_result (err (api code reason message)) =
    if nat_eq code 404 then ok tt else err (map_delete_err (api code reason message))
deletion_result (err e) = err (map_delete_err e)

abbrev no_namespace : OwnedResource → ApplyError
no_namespace target = server (
    codes target.gvk.kind
    ++ codes " is namespaced but owned-record for "
    ++ codes target.name
    ++ codes " has no namespace")

-- The namespace to delete in: none for the whole cluster.
abbrev pub place : Scope → OwnedResource → Result (Option String) ApplyError
place namespaced target = ok_or target.namespace (no_namespace target) >>= λ ns. ok (some ns)
place cluster target = ok none

module _ (A : Api) where
  abbrev delete_in :
      A.World
      → OwnedResource
      → Result (Option String) ApplyError
      → Result (Unit {0}) ApplyError × A.World
  delete_in w target (err e) = (err e, w)
  delete_in w target (ok ns) =
      let (answer, w') = A.delete w target.gvk ns target.name in (deletion_result answer, w')

  abbrev delete_at :
      OwnedResource → Result Scope ApplyError × A.World → Result (Unit {0}) ApplyError × A.World
  delete_at target (err e, w) = (err e, w)
  delete_at target (ok scope, w) = delete_in w target (place scope target)

  -- `KubeSsaApplier::delete`
  unfoldable pub delete_owned : OwnedResource → A.World → Result (Unit {0}) ApplyError × A.World
  delete_owned target w = delete_at target (A.discover w target.gvk)
