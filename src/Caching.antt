-- ===== src/Caching.antt =====
-- crates/synchrotron-plugins/src/cache.rs and app_cache.rs: the two caches of rendered manifests. They work
-- alike, so the operations are defined once for any type of keys, with the counter of
-- invalidations that only the cache of apps has.
pub mod Lru
pub mod Accounts
pub mod Trim
pub mod Put
pub mod Invalidate
pub mod Reachable
pub mod Samples
use text.Mathlib.TextEquality.{eq_iff}
use synchrotron.Base.{
  ℕ, zero, suc, ◌+◌, ◌-◌, ◌*◌, ◌%◌, ◌^◌, min, max, ◌≡◌, ◌↔◌, Bool, true, ◌&&◌, Option, none, some,
  List, [], ◌∷◌, String, String_eq, List_eq, ℕ_eq, ◌==◌, PartialEq, arith, list_beq_iff,
  if◌then◌else◌, ltb, length, filter, map,
}
use synchrotron.Base.Options.{unwrap_or}
use synchrotron.Manifest.{Yaml, Manifest, ManifestBody}
use synchrotron.Caching.Lru.{LruCache}

-- 350 MB
abbrev pub default_max_bytes : ℕ
default_max_bytes = 350 * 1024 * 1024

abbrev pub default_max_entries : ℕ
default_max_entries = 10000

abbrev pub usize_max : ℕ
usize_max = 2 ^ 64 - 1

-- A SHA-256 digest is the list of its bytes.
pub record CacheKey : Type 0 where
  pub plugin_id : String
  pub plugin_version : String
  pub input_hash : List ℕ

abbrev pub cache_key_beq : CacheKey → CacheKey → Bool
cache_key_beq a b =
    a.plugin_id == b.plugin_id
    && a.plugin_version == b.plugin_version
    && a.input_hash == b.input_hash

pub cache_key_beq_iff : (a b : CacheKey) → (cache_key_beq a b ≡ true) ↔ (a ≡ b)
cache_key_beq_iff a b = ground (
  arith,
  eq_iff a.plugin_id b.plugin_id,
  eq_iff a.plugin_version b.plugin_version,
  list_beq_iff a.input_hash b.input_hash,
)

instance abbrev pub CacheKey_eq : PartialEq CacheKey
CacheKey_eq = record { tests = cache_key_beq; decides = cache_key_beq_iff }

pub record AppCacheKey : Type 0 where
  pub app_id : String
  pub commit_hash : String
  pub params_hash : List ℕ

abbrev pub app_cache_key_beq : AppCacheKey → AppCacheKey → Bool
app_cache_key_beq a b =
    a.app_id == b.app_id && a.commit_hash == b.commit_hash && a.params_hash == b.params_hash

pub app_cache_key_beq_iff : (a b : AppCacheKey) → (app_cache_key_beq a b ≡ true) ↔ (a ≡ b)
app_cache_key_beq_iff a b = ground (
  arith,
  eq_iff a.app_id b.app_id,
  eq_iff a.commit_hash b.commit_hash,
  list_beq_iff a.params_hash b.params_hash,
)

instance abbrev pub AppCacheKey_eq : PartialEq AppCacheKey
AppCacheKey_eq = record { tests = app_cache_key_beq; decides = app_cache_key_beq_iff }

pub record Entry (Y : Yaml) : Type 0 where
  pub manifests : List (Manifest Y)
  pub bytes : ℕ

-- What a body takes up as JSON, if it can be written
abbrev pub estimate_bytes : {Y : Yaml} → (ManifestBody Y → Option ℕ) → List (Manifest Y) → ℕ
estimate_bytes written [] = 0
estimate_bytes written (m ∷ manifests) =
    (unwrap_or 0 (written m.body) + estimate_bytes written manifests) % 2 ^ 64

pub record CacheState (C : Type 0) : Type 0 where
  pub lru : C
  pub total_bytes : ℕ
  pub hits : ℕ
  pub misses : ℕ
  pub evictions : ℕ
  pub invalidations : ℕ
  pub max_entries : ℕ
  pub max_bytes : ℕ

pub record AppCacheStats : Type 0 where
  pub hits : ℕ
  pub misses : ℕ
  pub evictions : ℕ
  pub invalidations : ℕ
  pub entries : ℕ
  pub bytes : ℕ

-- `fetch_add` on an `AtomicU64`
abbrev pub bumped : ℕ → ℕ → ℕ
bumped counter n = (counter + n) % 2 ^ 64

module _ {Y : Yaml} {K : Type 0} ⦃e : PartialEq K⦄ (L : LruCache K (Entry Y)) where
  abbrev pub new_cache : ℕ → ℕ → CacheState L.Cache
  new_cache max_entries max_bytes = record {
    lru = L.new_lru (max max_entries 1);
    total_bytes = 0;
    hits = 0;
    misses = 0;
    evictions = 0;
    invalidations = 0;
    max_entries = max max_entries 1;
    max_bytes = max_bytes;
  }

  abbrev pub answered :
      CacheState L.Cache
      → Option (Entry Y) × L.Cache
      → Option (List (Manifest Y)) × CacheState L.Cache
  answered c (some entry, lru) =
      (some entry.manifests, record c { lru = lru; hits = bumped c.hits 1 })
  answered c (none, lru) = (none, record c { lru = lru; misses = bumped c.misses 1 })

  -- `get`
  unfoldable pub get_manifests :
      CacheState L.Cache → K → Option (List (Manifest Y)) × CacheState L.Cache
  get_manifests c key = answered c (L.get_entry c.lru key)

  -- An entry that was popped no longer counts.
  abbrev pub popped : CacheState L.Cache → Option (Entry Y) × L.Cache → CacheState L.Cache
  popped c (none, lru) = record c { lru = lru }
  popped c (some old, lru) = record c { lru = lru; total_bytes = c.total_bytes - old.bytes }

  abbrev pub evicted : CacheState L.Cache → Option (K × Entry Y) × L.Cache → CacheState L.Cache
  evicted c (none, lru) = record c { lru = lru }
  evicted c (some (key, old), lru) = record c {
    lru = lru;
    total_bytes = c.total_bytes - old.bytes;
    evictions = bumped c.evictions 1;
  }

  -- An entry's key is not in the cache any more when the entry goes in.
  abbrev pub insert_fresh : CacheState L.Cache → K → Entry Y → CacheState L.Cache
  insert_fresh c key entry =
      let pushed = evicted c (L.push_entry c.lru key entry) in
      record pushed { total_bytes = min (pushed.total_bytes + entry.bytes) usize_max }

  abbrev pub is_over : CacheState L.Cache → Bool
  is_over c = ltb c.max_bytes c.total_bytes && ltb 1 (length (L.iter c.lru))

  -- The loop that trims by bytes, on fuel: each round takes an entry out.
  unfoldable pub trim_bytes : ℕ → CacheState L.Cache → CacheState L.Cache
  trim_bytes zero c = c
  trim_bytes (suc fuel) c =
      let rest = trim_bytes fuel (evicted c (L.pop_lru c.lru)) in if is_over c then rest else c

  abbrev pub trim_all : CacheState L.Cache → CacheState L.Cache
  trim_all c = trim_bytes (length (L.iter c.lru)) c

  unfoldable pub put :
      (ManifestBody Y → Option ℕ)
      → CacheState L.Cache
      → K
      → List (Manifest Y)
      → List (Manifest Y) × CacheState L.Cache
  unfolding trim_bytes
  put written c key manifests =
      let entry : Entry Y = record {
        manifests = manifests;
        bytes = estimate_bytes written manifests;
      } in
      (manifests, trim_all (insert_fresh (popped c (L.pop c.lru key)) key entry))

  unfoldable pub pop_all : CacheState L.Cache → List K → CacheState L.Cache
  pop_all c [] = c
  pop_all c (key ∷ keys) = pop_all (popped c (L.pop c.lru key)) keys

  -- The keys of the entries that the test chooses, from `iter`
  abbrev pub keys_where : (K → Bool) → CacheState L.Cache → List K
  keys_where chosen c = map (λ x. x.0) (filter (λ x. chosen x.0) (L.iter c.lru))

  unfoldable pub invalidate : (K → Bool) → CacheState L.Cache → ℕ × CacheState L.Cache
  unfolding pop_all
  invalidate chosen c =
      let keys = keys_where chosen c in
      let removed = pop_all c keys in
      (
        length keys,
        record removed {
          invalidations =
              if ltb 0 (length keys) then bumped c.invalidations (length keys) else c.invalidations;
        },
      )

  abbrev pub cache_stats : CacheState L.Cache → AppCacheStats
  cache_stats c = record {
    hits = c.hits;
    misses = c.misses;
    evictions = c.evictions;
    invalidations = c.invalidations;
    entries = length (L.iter c.lru);
    bytes = c.total_bytes;
  }

  unfoldable pub warm :
      (ManifestBody Y → Option ℕ)
      → CacheState L.Cache
      → List (K × List (Manifest Y))
      → CacheState L.Cache
  unfolding put
  warm written c [] = c
  warm written c ((key, manifests) ∷ entries) = warm written (put written c key manifests).1 entries

  abbrev pub clear_all : CacheState L.Cache → CacheState L.Cache
  clear_all c = record c { lru = L.clear c.lru; total_bytes = 0 }

-- `AppCache::invalidate_app`
abbrev pub invalidate_app :
    {Y : Yaml} (L : LruCache AppCacheKey (Entry Y))
    → CacheState L.Cache
    → String
    → ℕ × CacheState L.Cache
invalidate_app L c app_id = invalidate L (λ key. key.app_id == app_id) c
