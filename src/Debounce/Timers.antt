-- ===== src/Debounce/Timers.antt =====
-- The timers that still sleep, crates/synchrotron-reconcile/src/debounce.rs.
use text.Mathlib.TextEquality.{eq_iff}
use synchrotron.Base.{
  ℕ, ◌≡◌, ◌⊎◌, refl, sym, ap, ◌∙◌, subst, Bool, true, false, ◌&&◌, ◌||◌, Bool-cases, Option, none,
  some, List, [], ◌∷◌, ◌++◌, String, ◌==◌, String_eq, arith, if◌then◌else◌, nat_eq, inl, inr,
  if_cases,
}
use synchrotron.Base.Map.{Map, get, remove, get-insert, get-remove}
use synchrotron.Pool.{Pool, Trigger}
use synchrotron.Debounce.{
  Debouncer, DebounceConfig, Timer, PendingEntry, new, bump, enqueue, current, fire,
  fire_if_current, wake, send, send_all, flush_now,
}
use synchrotron.Debounce.Lifecycle.{Step, arrives, wakes, flushes, pool_steps, Reach, start, step}

-- A timer of this app and generation still sleeps.
abbrev pub armed : List Timer → String → ℕ → Bool
armed [] app generation = false
armed (t ∷ ts) app generation =
    t.app_id == app && nat_eq t.generation generation || armed ts app generation

armed-append :
    (ts us : List Timer) (app : String) (generation : ℕ)
    → armed (ts ++ us) app generation ≡ (armed ts app generation || armed us app generation)
armed-append [] us app generation = refl
armed-append (t ∷ ts) us app generation = ground (arith, armed-append ts us app generation)

-- Every pending entry has its timer.
abbrev pub IsArmed : Debouncer → Type 0
IsArmed d =
    (a : String) (entry : PendingEntry)
    → get d.pending a ≡ some entry
    → armed d.timers a entry.generation ≡ true

some_inj : {x y : PendingEntry} → some x ≡ some y → x ≡ y
some_inj e = cc e

arrives-IsArmed :
    (d : Debouncer) (app : String) (trigger : Trigger) (now : ℕ)
    → IsArmed d
    → IsArmed (enqueue d app trigger now)
unfolding enqueue
arrives-IsArmed d app trigger now v a entry h =
    let fresh = bump (get d.pending app) trigger in
    rw armed-append (
      go (app == a) fresh (get d.pending a)
        (subst (λ o. o ≡ some entry) (get-insert d.pending app fresh a) h) (v a entry))
  where
    go :
        (same : Bool) (fresh : PendingEntry) (old : Option PendingEntry)
        → (if same then some fresh else old) ≡ some entry
        → (old ≡ some entry → armed d.timers a entry.generation ≡ true)
        → (armed d.timers a entry.generation
            || (same && nat_eq fresh.generation entry.generation || false))
          ≡ true
    go true fresh old e k = rw (some_inj e) (ground arith)
    go false fresh old e k = rw (k e) refl

armed-insert :
    (before : List Timer) (t : Timer) (later : List Timer) (a : String) (generation : ℕ)
    → armed (before ++ t ∷ later) a generation
      ≡ (t.app_id == a && nat_eq t.generation generation || armed (before ++ later) a generation)
armed-insert before t later a generation =
    ground
      (arith, armed-append before (t ∷ later) a generation, armed-append before later a generation)

-- The timer that wakes was that of an entry only if it removes the entry.
wakes-IsArmed :
    (d : Debouncer) (before : List Timer) (t : Timer) (later : List Timer) (now : ℕ)
    → d.timers ≡ before ++ t ∷ later
    → IsArmed d
    → IsArmed (wake d t (before ++ later) now)
unfolding wake fire_if_current
wakes-IsArmed d before t later now split v = go (get d.pending t.app_id) refl
  where
    kept :
        (a : String) (entry : PendingEntry)
        → get d.pending a ≡ some entry
        → (t.app_id == a && nat_eq t.generation entry.generation) ≡ false
        → armed (before ++ later) a entry.generation ≡ true
    kept a entry h other = ground (
      arith,
      armed-insert before t later a entry.generation,
      subst (λ ts. armed ts a entry.generation ≡ true) split (v a entry h),
      other,
    )

    removed :
        (a : String) (entry : PendingEntry)
        → ((t.app_id == a) ≡ true) ⊎ ((t.app_id == a) ≡ false)
        → get (remove d.pending t.app_id) a ≡ some entry
        → armed (before ++ later) a entry.generation ≡ true
    removed a entry (inl same) h = absurd (ground (arith, get-remove d.pending t.app_id a, same, h))
    removed a entry (inr other) h =
        kept a entry (ground (arith, get-remove d.pending t.app_id a, other, h)) (rw other refl)

    unmatched :
        (old : PendingEntry)
        → get d.pending t.app_id ≡ some old
        → nat_eq old.generation t.generation ≡ false
        → (a : String) (entry : PendingEntry) → get d.pending a ≡ some entry
        → ((t.app_id == a) ≡ true) ⊎ ((t.app_id == a) ≡ false)
        → (t.app_id == a && nat_eq t.generation entry.generation) ≡ false
    unmatched old e stale a entry h (inr other) = rw other refl
    unmatched old e stale a entry h (inl same) =
        let found = some_inj (sym e ∙ ap (get d.pending) ((eq_iff t.app_id a).0 same) ∙ h) in
        ground (arith, ap (λ (x : PendingEntry). x.generation) found)

    go :
        (found : Option PendingEntry)
        → get d.pending t.app_id ≡ found
        → IsArmed
            (fire (record d { timers = before ++ later }) t.app_id now (current found t.generation))
    go none e = λ a entry h. kept a entry h (elim (Bool-cases (t.app_id == a)) [
      | inl same ↦ absurd (cc (e, ap (get d.pending) ((eq_iff t.app_id a).0 same), h))
      | inr other ↦ rw other refl
    ])
    go (some old) e =
        if_cases (λ o. IsArmed (fire (record d { timers = before ++ later }) t.app_id now o))
          (nat_eq old.generation t.generation) (some old.trigger) none
          (λ _ a entry h. removed a entry (Bool-cases (t.app_id == a)) h)
          (λ stale a entry h.
            kept a entry h (unmatched old e stale a entry h (Bool-cases (t.app_id == a))))

pub send_all_pending :
    (d : Debouncer) (m : Map String PendingEntry) (now : ℕ)
    → ((send_all d m now).pending ≡ d.pending) × ((send_all d m now).timers ≡ d.timers)
unfolding send_all
send_all_pending d [] now = (refl, refl)
send_all_pending d ((app, entry) ∷ m) now = send_all_pending (send d app entry.trigger now) m now

flushes-IsArmed : (d : Debouncer) (now : ℕ) → IsArmed (flush_now d now)
unfolding flush_now
flushes-IsArmed d now a entry h = absurd (
    nothing (
      subst (λ m. get m a ≡ some entry)
        (send_all_pending (record d { pending = [] }) d.pending now).0 h))
  where
    nothing : get [] a ≡ some entry → ⊥
    nothing e = unfold get in (cc e)

Step-IsArmed : {d e : Debouncer} → Step d e → IsArmed d → IsArmed e
Step-IsArmed (arrives app trigger now) v = arrives-IsArmed _ app trigger now v
Step-IsArmed (wakes before t later now split due) v = wakes-IsArmed _ before t later now split v
Step-IsArmed (flushes now) v = flushes-IsArmed _ now
Step-IsArmed (pool_steps q s) v = v

Reach-along : {d e : Debouncer} → Reach d e → IsArmed d → IsArmed e
Reach-along start v = v
Reach-along (step r s) v = Step-IsArmed s (Reach-along r v)

-- Along every run of a new debouncer, whatever arrives, wakes, flushes and happens to the pool, an app that
-- is pending has a timer that still sleeps and that has the generation of its entry.
pub Reach-IsArmed :
    (pool : Pool) (c : DebounceConfig) (d : Debouncer)
    → Reach (new pool c) d
    → (a : String) (entry : PendingEntry) → get d.pending a ≡ some entry
    → armed d.timers a entry.generation ≡ true
Reach-IsArmed pool c d r = Reach-along r (λ a entry h. absurd (unfold get in (cc h)))
