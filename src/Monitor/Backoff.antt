-- ===== src/Monitor/Backoff.antt =====
-- How the probe loop of crates/synchrotron-kube/src/health/state.rs backs off.
use native.Mathlib.Nat.{mul_assoc, pow-suc, pow-le-pow_right}
use synchrotron.Base.{
  ℕ, suc, ◌+◌, ◌-◌, ◌*◌, ◌%◌, ◌^◌, ◌≤◌, ◌<◌, ◌≡◌, min, max, refl, sym, ap, ◌∙◌, subst, ◌&&◌, String,
  nat_eq, ltb, arith, List, [], ◌∷◌,
}
use synchrotron.Monitor.{
  HealthState, up, down, unknown, HealthConfig, Tracker, duration_max, new, record_success,
  record_failure, next_backoff, prev_failures, sleep_duration, sleep_in, should_reconnect,
  reconnect_in,
}

-- A run of failures without a success.
abbrev pub fail : List String → Tracker → Tracker
fail [] t = t
fail (error ∷ errors) t = record_failure (fail errors t) error

abbrev pub count : List String → ℕ
count [] = 0
count (e ∷ es) = suc (count es)

config-fail : (errors : List String) (t : Tracker) → (fail errors t).config ≡ t.config
unfolding record_failure
config-fail [] t = refl
config-fail (error ∷ errors) t = config-fail errors t

grown : (a k : ℕ) → 0 < a → 0 < a * 2 ^ k
grown a k pos = grind (arith, pow-le-pow_right {n = 2} (omega arith) {i = 0} {j = k} (omega arith))

doubled :
    (c : HealthConfig) (a : ℕ)
    → 0 < a
    → 0 < c.max_backoff
    → c.max_backoff ≤ duration_max
    → next_backoff c (min a c.max_backoff) ≡ min (a * 2) c.max_backoff
doubled c a pos room fits = grind arith

backoff-fail :
    (c : HealthConfig) (error : String) (errors : List String)
    → 0 < c.initial_backoff
    → c.initial_backoff ≤ c.max_backoff
    → c.max_backoff ≤ duration_max
    → (fail (error ∷ errors) (new c)).backoff
      ≡ min (c.initial_backoff * 2 ^ count errors) c.max_backoff
unfolding record_failure
backoff-fail c error [] pos small fits = grind arith
backoff-fail c error (e ∷ errors) pos small fits =
    ap (λ k. next_backoff k (fail (e ∷ errors) (new c)).backoff) (config-fail (e ∷ errors) (new c))
    ∙ ap (next_backoff c) (backoff-fail c e errors pos small fits)
    ∙ doubled c (c.initial_backoff * 2 ^ count errors) (grown c.initial_backoff (count errors) pos)
        (omega arith) fits
    ∙ ap (λ n. min n c.max_backoff)
        (mul_assoc c.initial_backoff (2 ^ count errors) 2
          ∙ ap (λ n. c.initial_backoff * n) (sym (pow-suc 2 (count errors))))

failures-fail :
    (c : HealthConfig) (errors : List String)
    → prev_failures (fail errors (new c)).state ≡ min (count errors) (2 ^ 32 - 1)
unfolding record_failure
failures-fail c [] = omega arith
failures-fail c (error ∷ errors) = omega (arith, failures-fail c errors)

reconnects :
    (n after : ℕ)
    → 0 < n
    → (ltb 0 n && ltb 0 after && nat_eq (n % after) 0) ≡ (ltb 0 after && nat_eq (n % after) 0)
reconnects n after pos = ground arith

-- From a new tracker, after one or more failures in a row with no success between them, where the
-- initial back-off is positive and not above the maximum: the probe waits for the initial back-off
-- doubled after each further failure, up to the maximum; the count of failures is exact up to 2 ^ 32 - 1;
-- and the client is rebuilt exactly when that count is a multiple of a positive `reconnect_after`.
pub fail_backs_off :
    (c : HealthConfig) (error : String) (errors : List String)
    → 0 < c.initial_backoff
    → c.initial_backoff ≤ c.max_backoff
    → c.max_backoff ≤ duration_max
    → let t = fail (error ∷ errors) (new c) in
      let failures = min (count (error ∷ errors)) (2 ^ 32 - 1) in
      (sleep_duration t ≡ min (c.initial_backoff * 2 ^ count errors) c.max_backoff)
      × (prev_failures t.state ≡ failures)
      × (should_reconnect t ≡ (ltb 0 c.reconnect_after && nat_eq (failures % c.reconnect_after) 0))
unfolding sleep_duration should_reconnect record_failure
fail_backs_off c error errors pos small fits = (
  backoff-fail c error errors pos small fits,
  failures-fail c (error ∷ errors),
  ap
        (λ (k : HealthConfig).
          reconnect_in
            (down (min (prev_failures (fail errors (new c)).state + 1) (2 ^ 32 - 1)) error)
            k.reconnect_after)
        (config-fail errors (new c))
      ∙ ap (λ n. ltb 0 n && ltb 0 c.reconnect_after && nat_eq (n % c.reconnect_after) 0)
          (failures-fail c (error ∷ errors))
      ∙ reconnects (min (count (error ∷ errors)) (2 ^ 32 - 1)) c.reconnect_after (omega arith),
)

pub data Probe : Type 0 where
  succeeded : Probe
  failed : String → Probe

abbrev pub probed : Tracker → List Probe → Tracker
probed t [] = t
probed t (succeeded ∷ ps) = probed (record_success t) ps
probed t (failed error ∷ ps) = probed (record_failure t error) ps

-- What every sequence of probes keeps.
record IsBounded (c : HealthConfig) (t : Tracker) : Type 0 where
  same_config : t.config ≡ c
  bounded : t.backoff ≤ max c.initial_backoff c.max_backoff

probed-IsBounded :
    (c : HealthConfig) (t : Tracker) (ps : List Probe) → IsBounded c t → IsBounded c (probed t ps)
unfolding record_success record_failure
probed-IsBounded c t [] b = b
probed-IsBounded c t (succeeded ∷ ps) b =
    probed-IsBounded c (record_success t) ps
      (record { same_config = b.same_config; bounded = omega arith })
probed-IsBounded c t (failed error ∷ ps) b =
    probed-IsBounded c (record_failure t error) ps (record {
      same_config = b.same_config;
      bounded =
          subst (λ k. next_backoff k t.backoff ≤ max c.initial_backoff c.max_backoff)
            (sym b.same_config) (ground arith);
    })

sleep_bound :
    (s : HealthState) (backoff interval most : ℕ)
    → backoff ≤ most
    → sleep_in s backoff interval ≤ max interval most
sleep_bound unknown backoff interval most h = omega arith
sleep_bound up backoff interval most h = omega arith
sleep_bound (down failures error) backoff interval most h = omega (arith, h)

-- After any probes, in any order, the loop sleeps no longer than the longest of the interval, the
-- initial back-off and the maximal one.
pub sleep_duration-bounded :
    (c : HealthConfig) (ps : List Probe)
    → sleep_duration (probed (new c) ps) ≤ max c.interval (max c.initial_backoff c.max_backoff)
unfolding sleep_duration
sleep_duration-bounded c ps =
    let t = probed (new c) ps in
    let b = probed-IsBounded c (new c) ps (record { same_config = refl; bounded = omega arith }) in
    subst
      (λ (k : HealthConfig).
        sleep_in t.state t.backoff t.config.interval
        ≤ max k.interval (max c.initial_backoff c.max_backoff))
      b.same_config
      (sleep_bound t.state t.backoff t.config.interval (max c.initial_backoff c.max_backoff)
        b.bounded)
