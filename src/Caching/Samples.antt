-- ===== src/Caching/Samples.antt =====
-- The caches over an LruCache that is the list of its entries, and their theorems at concrete inputs.
use synchrotron.Base.{
  ℕ, ◌≤◌, ◌≡◌, ◌⊎◌, refl, Bool, true, false, Option, none, some, [], ◌∷◌, String_eq, ◌==◌, arith,
  if◌then◌else◌, ltb, length,
}
use synchrotron.Base.Map.{Map, get, remove}
use synchrotron.Manifest.{ManifestBody}
use synchrotron.Manifest.Samples.{Sample}
use synchrotron.Diff.Pipeline.Samples.{autoscaler}
use synchrotron.Caching.{
  AppCacheKey, AppCacheKey_eq, Entry, CacheState, new_cache, get_manifests, put, invalidate,
}
use synchrotron.Caching.Lru.{LruCache, last, drop_last, touched}
use synchrotron.Caching.Accounts.{IsAccounted, sum_bytes}
use synchrotron.Caching.Trim.{Leads}
use synchrotron.Caching.Put.{put-Leads, get-put}
use synchrotron.Caching.Reachable.{
  IsSound, Reach, here, next, puts, gets, invalidates, reach-IsSound,
}

-- A cap and the entries
abbrev Listed : Type 0
Listed = ℕ × Map AppCacheKey (Entry Sample)

abbrev push_listed :
    Listed → AppCacheKey → Entry Sample → Option (AppCacheKey × Entry Sample) × Listed
push_listed (cap, m) k v =
    if ltb (length m) cap then (none, (cap, (k, v) ∷ m)) else (last m, (cap, (k, v) ∷ drop_last m))

push_room_listed :
    (c : Listed) (k : AppCacheKey) (v : Entry Sample)
    → ltb (length c.1) c.0 ≡ true
    → ((push_listed c k v).0 ≡ none) × ((push_listed c k v).1.1 ≡ (k, v) ∷ c.1)
push_room_listed c k v h = rw h (refl, refl)

push_full_listed :
    (c : Listed) (k : AppCacheKey) (v : Entry Sample)
    → ltb (length c.1) c.0 ≡ false
    → ((push_listed c k v).0 ≡ last c.1) × ((push_listed c k v).1.1 ≡ (k, v) ∷ drop_last c.1)
push_full_listed c k v h = rw h (refl, refl)

push_cap_listed : (c : Listed) (k : AppCacheKey) (v : Entry Sample) → (push_listed c k v).1.0 ≡ c.0
push_cap_listed c k v = ground arith

abbrev lru : LruCache AppCacheKey (Entry Sample)
lru = record {
  Cache = Listed;
  iter = λ c. c.1;
  cap = λ c. c.0;
  new_lru = λ n. (n, []);
  get_entry = λ c k. (get c.1 k, (c.0, touched c.1 k (get c.1 k)));
  pop = λ c k. (get c.1 k, (c.0, remove c.1 k));
  push_entry = push_listed;
  pop_lru = λ c. (last c.1, (c.0, drop_last c.1));
  clear = λ c. (c.0, []);
  iter_new = λ n. refl;
  cap_new = λ n. refl;
  get_found = λ c k. refl;
  get_iter = λ c k. refl;
  get_cap = λ c k. refl;
  pop_found = λ c k. refl;
  pop_iter = λ c k. refl;
  pop_cap = λ c k. refl;
  push_room = λ c k v absent. push_room_listed c k v;
  push_full = λ c k v absent. push_full_listed c k v;
  push_cap = push_cap_listed;
  pop_lru_found = λ c. refl;
  pop_lru_iter = λ c. refl;
  pop_lru_cap = λ c. refl;
  clear_iter = λ c. refl;
  clear_cap = λ c. refl;
}

abbrev written : ManifestBody Sample → Option ℕ
written b = some 60

abbrev web_key : AppCacheKey
web_key = record { app_id = "web"; commit_hash = "abc"; params_hash = [] }

abbrev entry : Entry Sample
entry = record { manifests = []; bytes = 50 }

-- An old render of the same key and one of another app, the cap of 100 bytes all but used up
abbrev state : CacheState Listed
state = record {
  lru =
      (2, (record web_key { app_id = "db" }, entry) ∷ (web_key, record entry { bytes = 40 }) ∷ []);
  total_bytes = 90;
  hits = 0;
  misses = 2;
  evictions = 0;
  invalidations = 0;
  max_entries = 2;
  max_bytes = 100;
}

state-IsAccounted : IsAccounted lru state
unfolding get sum_bytes
state-IsAccounted = ((refl, (refl, tt)), omega arith, refl, refl)

abbrev renewed : CacheState Listed
renewed = (put lru written state web_key (autoscaler ∷ [])).1

put_evicts : (renewed.evictions ≡ 1) × (renewed.total_bytes ≡ 60)
unfolding put get remove
put_evicts = (refl, refl)

put-Leads_example :
    IsAccounted lru renewed
    × Leads lru web_key
        (record { manifests = autoscaler ∷ []; bytes = 60 })
        ((record web_key { app_id = "db" }, entry) ∷ [])
        renewed
    × ((renewed.total_bytes ≤ 100) ⊎ (length renewed.lru.1 ≡ 1))
unfolding remove
put-Leads_example =
    put-Leads lru written state web_key (autoscaler ∷ []) state-IsAccounted (omega arith)
      (omega arith)

get-put_example : (get_manifests lru renewed web_key).0 ≡ some (autoscaler ∷ [])
get-put_example =
    get-put lru written state web_key (autoscaler ∷ []) state-IsAccounted (omega arith)
      (omega arith)

abbrev of_web : AppCacheKey → Bool
of_web key = key.app_id == "web"

abbrev fresh : CacheState Listed
fresh = new_cache lru 2 100

abbrev filled : CacheState Listed
filled = (put lru written fresh web_key (autoscaler ∷ [])).1

three_operations :
    Reach lru written fresh (invalidate lru of_web (get_manifests lru filled web_key).1).1
three_operations =
    next (next (next here (puts web_key (autoscaler ∷ []) (omega arith))) (gets web_key))
      (invalidates of_web)

reach-IsSound_example : IsSound lru (invalidate lru of_web (get_manifests lru filled web_key).1).1
reach-IsSound_example = reach-IsSound lru written 2 100 _ three_operations
