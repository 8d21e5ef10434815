-- ===== src/Notifier/Delivery.antt =====
-- How a delivery of crates/synchrotron-notifier/src/lib.rs ends.
use synchrotron.Base.{
  ℕ, zero, suc, ◌+◌, ◌*◌, ◌≤◌, ◌<◌, min, ◌≡◌, ◌≢◌, ◌⊎◌, ◌∙◌, refl, sym, ap, subst, inl, inr, Bool,
  true, false, ◌&&◌, if◌then◌else◌, leb, ltb, List, [], ◌∷◌, ◌++◌, arith, nat_eq,
}
use synchrotron.Base.Options.{map_option}
use synchrotron.Monitor.{duration_max}
use synchrotron.Notifier.{
  NotificationConfig, NotifierMetrics, add_one, Mac, sign, scheme, Request, Client, Answer, status,
  error, Verdict, delivered, client_error, retry, judge, Act, posts, sleeps, Delivery, before,
  settle_attempt, attempts, deliver,
}

-- The wait after the attempt with the given index
pub backoff : ℕ → ℕ → ℕ
backoff base zero = base
backoff base (suc i) = min (backoff base i * 2) duration_max

-- That many retries, each counted
pub retried : ℕ → NotifierMetrics → NotifierMetrics
retried zero m = m
retried (suc k) m = retried k (record m { retries = add_one m.retries })

-- How the last attempt is counted
pub counted : Verdict → NotifierMetrics → NotifierMetrics
counted delivered m = record m { sent = add_one m.sent }
counted client_error m = record m { dropped_4xx = add_one m.dropped_4xx; failed = add_one m.failed }
counted retry m = record m { failed = add_one m.failed }

-- A post for each attempt, a wait after each retry, from the given index on
pub schedule : Request → ℕ → ℕ → ℕ → List Act
schedule req base i zero = posts req ∷ []
schedule req base i (suc k) = posts req ∷ sleeps (backoff base i) ∷ schedule req base (suc i) k

module _ (C : Client) (req : Request) where
  -- The world after that many requests
  pub world_after : ℕ → C.World → C.World
  world_after zero w = w
  world_after (suc k) w = world_after k (C.send w req).1

  abbrev pub verdict_at : ℕ → C.World → Verdict
  verdict_at k w = judge (C.send (world_after k w) req).0

  -- The first attempt that is decided, or the last one of those left, ends the delivery.
  abbrev Stops : ℕ → (left : ℕ) → ℕ → ℕ → NotifierMetrics → C.World → Delivery C → Type 0
  Stops k left base i m w result =
      (k < left)
      × ((j : ℕ) → j < k → verdict_at j w ≡ retry)
      × ((verdict_at k w ≢ retry) ⊎ (suc k ≡ left))
      × (result
          ≡ (counted (verdict_at k w) (retried k m), schedule req base i k, world_after (suc k) w))

  -- The outcome of the first of the attempts, given its verdict
  abbrev Ended : Verdict → (left base i : ℕ) → NotifierMetrics → C.World → Delivery C → Type 0
  Ended v left base i m w result =
      verdict_at 0 w ≡ v → (k : ℕ) × Stops k left base i m w (before C (posts req ∷ []) result)

  decided-Ended :
      (v : Verdict) (result : Delivery C) (left base i : ℕ) (m : NotifierMetrics) (w : C.World)
      → v ≢ retry
      → result ≡ (counted v m, [], (C.send w req).1)
      → Ended v (suc left) base i m w result
  unfolding world_after retried schedule
  decided-Ended v result left base i m w n e h = (
    0,
    (
      omega arith,
      λ j l. absurd (omega arith),
      inl (λ r. n (sym h ∙ r)),
      rw h (ap (before C (posts req ∷ [])) e),
    ),
  )

  last-Ended :
      (base i : ℕ) (m : NotifierMetrics) (w : C.World)
      → Ended retry 1 base i m w (counted retry m, [], (C.send w req).1)
  unfolding world_after retried schedule
  last-Ended base i m w h = (0, (omega arith, λ j l. absurd (omega arith), inr refl, rw h refl))

  retried-Ended :
      (left base i : ℕ) (m : NotifierMetrics) (w : C.World) (rest : Delivery C) (k : ℕ)
      → Stops k left base (suc i) (record m { retries = add_one m.retries }) (C.send w req).1 rest
      → Ended retry (suc left) base i m w (before C (sleeps (backoff base i) ∷ []) rest)
  unfolding world_after retried schedule
  retried-Ended left base i m w rest k (lt, all, decided, e) h = (
    suc k,
    (
      omega arith,
      earlier,
      later decided,
      ap (λ r. before C (posts req ∷ []) (before C (sleeps (backoff base i) ∷ []) r)) e,
    ),
  )
    where
      earlier : (j : ℕ) → j < suc k → verdict_at j w ≡ retry
      earlier zero l = h
      earlier (suc j) l = all j (omega arith)

      later :
          (verdict_at k (C.send w req).1 ≢ retry) ⊎ (suc k ≡ left)
          → (verdict_at (suc k) w ≢ retry) ⊎ (suc (suc k) ≡ suc left)
      later (inl d) = inl d
      later (inr l) = inr (ap suc l)

  -- The rest of the attempts, when the first of them is to be tried again
  abbrev Rest : (left base i max_attempts attempt : ℕ) → NotifierMetrics → C.World → Type 0
  Rest left base i max_attempts attempt m w =
      (k : ℕ) × Stops k left base i m w
        (attempts C left req max_attempts attempt (backoff base i) m w)

  round-Stops :
      (left base i max_attempts attempt : ℕ) (m : NotifierMetrics) (w : C.World)
      → attempt + left ≡ max_attempts
      → (1 ≤ left
          → Rest left base
              (suc i)
              max_attempts
              (attempt + 1)
              (record m { retries = add_one m.retries })
              (C.send w req).1)
      → Rest (suc left) base i max_attempts attempt m w
  unfolding attempts backoff world_after counted
  round-Stops left base i max_attempts attempt m w h next =
      go left h next (nat_eq attempt max_attempts) refl (judge (C.send w req).0) refl
    where
      m' : NotifierMetrics
      m' = record m { retries = add_one m.retries }

      go :
          (left : ℕ)
          → attempt + left ≡ max_attempts
          → (1 ≤ left → Rest left base (suc i) max_attempts (attempt + 1) m' (C.send w req).1)
          → (last : Bool) → nat_eq attempt max_attempts ≡ last
          → (v : Verdict)
          → Ended v (suc left) base i m w (
              settle_attempt C last
                (backoff base i)
                v
                m
                (C.send w req).1
                (attempts C left req max_attempts (attempt + 1) (backoff base (suc i))))
      go left h next last e delivered = decided-Ended delivered _ left base i m w (λ r. cc) refl
      go left h next last e client_error =
          decided-Ended client_error _ left base i m w (λ r. cc) refl
      go zero h next true e retry = last-Ended base i m w
      go zero h next false e retry = absurd (ground arith)
      go (suc left) h next true e retry = absurd (ground arith)
      go (suc left) h next false e retry =
          let (k, ends) = next (omega arith) in
          retried-Ended (suc left) base i m w
            (attempts C (suc left) req max_attempts (attempt + 1) (backoff base (suc i)) m'
              (C.send w req).1)
            k ends

  attempts-Stops :
      (left base i max_attempts attempt : ℕ) (m : NotifierMetrics) (w : C.World)
      → attempt + left ≡ max_attempts
      → Rest (suc left) base i max_attempts attempt m w
  attempts-Stops zero base i max_attempts attempt m w h =
      round-Stops zero base i max_attempts attempt m w h (λ l. absurd (omega arith))
  attempts-Stops (suc left) base i max_attempts attempt m w h =
      round-Stops (suc left) base i max_attempts attempt m w h
        (λ l. attempts-Stops left base (suc i) max_attempts (attempt + 1) _ _ (omega arith))

-- The request of a delivery
abbrev pub request_of : Mac → NotificationConfig → List ℕ → Request
request_of M cfg body = record {
  url = cfg.url;
  body = body;
  signature = map_option (λ s. scheme ++ sign M s body) cfg.hmac_secret;
}

-- What an answer means: a success from 200 to 299, a client error from 400 to 499, and another try for any
-- other code and where there is no answer.
abbrev pub Means : Answer → Verdict → Type 0
Means (status code) delivered = (200 ≤ code) × (code < 300)
Means (status code) client_error = (400 ≤ code) × (code < 500)
Means (status code) retry = (code < 200) ⊎ (((300 ≤ code) × (code < 400)) ⊎ (500 ≤ code))
Means error retry = Unit
Means error delivered = ⊥
Means error client_error = ⊥

judge-Means : (a : Answer) → Means a (judge a)
judge-Means error = tt
judge-Means (status code) =
    go (leb 200 code) (ltb code 300) (leb 400 code) (ltb code 500) refl refl refl refl
  where
    go :
        (a b c d : Bool)
        → leb 200 code ≡ a
        → ltb code 300 ≡ b
        → leb 400 code ≡ c
        → ltb code 500 ≡ d
        → Means (status code) (if a && b then delivered else if c && d then client_error else retry)
    go true true c d ha hb hc hd = ground arith
    go true false true true ha hb hc hd = ground arith
    go true false true false ha hb hc hd = inr (inr (ground arith))
    go true false false d ha hb hc hd = inr (inl (ground arith))
    go false b true true ha hb hc hd = ground arith
    go false b true false ha hb hc hd = inl (ground arith)
    go false b false d ha hb hc hd = inl (ground arith)

module _ (C : Client) (req : Request) where
  abbrev pub answer_at : ℕ → C.World → Answer
  answer_at k w = (C.send (world_after C req k w) req).0

  -- The answers before the k-th ask for another try; the k-th decides, or is the last of those left.
  abbrev pub Ends : ℕ → (left : ℕ) → ℕ → ℕ → NotifierMetrics → C.World → Delivery C → Type 0
  Ends k left base i m w result =
      (k < left)
      × ((j : ℕ) → j < k → Means (answer_at j w) retry)
      × ((v : Verdict) × Means (answer_at k w) v
          × ((v ≢ retry) ⊎ (suc k ≡ left))
          × (result
              ≡ (counted v (retried k m), schedule req base i k, world_after C req (suc k) w)))

  Stops-Ends :
      (k left base i : ℕ) (m : NotifierMetrics) (w : C.World) (result : Delivery C)
      → Stops C req k left base i m w result
      → Ends k left base i m w result
  Stops-Ends k left base i m w result (lt, all, decided, e) = (
    lt,
    λ j l. subst (Means (answer_at j w)) (all j l) (judge-Means (answer_at j w)),
    (judge (answer_at k w), judge-Means (answer_at k w), decided, e),
  )

-- With at least one attempt allowed, a delivery posts the same request until an answer decides, a
-- success (200 to 299) or a client error (400 to 499), or the attempts are used up. It waits between the attempts, twice as
-- long every time, counts one retry for each wait, and counts the outcome once.
pub deliver-Ends :
    (C : Client) (M : Mac) (backoff_base : ℕ) (cfg : NotificationConfig) (body : List ℕ)
    (m : NotifierMetrics) (w : C.World)
    → 1 ≤ cfg.max_attempts
    → (k : ℕ) × Ends C
        (request_of M cfg body)
        k
        cfg.max_attempts
        backoff_base
        0
        m
        w
        (deliver C M backoff_base cfg body m w)
unfolding deliver backoff
deliver-Ends C M backoff_base cfg body m w pos =
    let (k, stops) = go cfg.max_attempts refl pos in
    (k, Stops-Ends C (request_of M cfg body) k cfg.max_attempts backoff_base 0 m w _ stops)
  where
    go :
        (n : ℕ)
        → cfg.max_attempts ≡ n
        → 1 ≤ n
        → (k : ℕ) × Stops C
            (request_of M cfg body)
            k
            n
            backoff_base
            0
            m
            w
            (attempts C n (request_of M cfg body) cfg.max_attempts 1 backoff_base m w)
    go zero h p = absurd (omega arith)
    go (suc n) h p =
        attempts-Stops C (request_of M cfg body) n backoff_base 0 cfg.max_attempts 1 m w
          (omega arith)
