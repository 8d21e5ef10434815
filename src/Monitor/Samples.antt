-- ===== src/Monitor/Samples.antt =====
-- Tests of the probe loop, and its theorems at concrete inputs.
use synchrotron.Base.{
  ◌-◌, ◌*◌, ◌%◌, ◌^◌, ◌≡◌, min, refl, true, ◌&&◌, List, [], ◌∷◌, String, arith, nat_eq, ltb,
}
use synchrotron.Monitor.{
  default_config, new, record_failure, sleep_duration, should_reconnect, prev_failures,
}
use synchrotron.Monitor.Backoff.{fail, count, fail_backs_off}

abbrev five_timeouts : List String
five_timeouts = "e5" ∷ "e4" ∷ "e3" ∷ "e2" ∷ "e1" ∷ []

fifth_reconnects : should_reconnect (fail five_timeouts (new default_config)) ≡ true
unfolding should_reconnect record_failure
fifth_reconnects = refl

fail_backs_off_example :
    let t = fail five_timeouts (new default_config) in
    let failures = min (count five_timeouts) (2 ^ 32 - 1) in
    (sleep_duration t ≡ min (1000000000 * 2 ^ 4) 60000000000)
    × (prev_failures t.state ≡ failures)
    × (should_reconnect t ≡ (ltb 0 5 && nat_eq (failures % 5) 0))
fail_backs_off_example =
    fail_backs_off default_config "e5" ("e4" ∷ "e3" ∷ "e2" ∷ "e1" ∷ []) (omega arith) (omega arith)
      (omega arith)
