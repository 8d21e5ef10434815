-- ===== src/Notifier/Samples.antt =====
-- Notifications at concrete inputs: a receiver that fails once, and a code that is the body itself.
use synchrotron.Base.{
  ℕ, zero, suc, ◌+◌, ◌≡◌, ◌↔◌, refl, true, some, List, [], ◌∷◌, ◌++◌, ℕ_eq, List_eq, ◌==◌,
  list_beq_iff, eq_self, arith,
}
use synchrotron.Notifier.{
  NotificationConfig, new_config, with_hmac, NotifierMetrics, Mac, sign, scheme, verify, Client,
  status, error, posts, sleeps, deliver,
}
use synchrotron.Notifier.Delivery.{Ends, request_of, deliver-Ends}
use synchrotron.Notifier.Signature.{IsSigned, verify-sign}

abbrev plain : Mac
plain = record {
  finalize = λ secret body. body;
  verify_slice = λ secret body sig. sig == body;
  encode = λ bytes. bytes;
  decode = some;
  decode-encode = λ bytes. refl;
  verify-finalize = λ secret body. eq_self body;
  verify-eq = λ secret body sig h. (list_beq_iff sig body).0 h;
}

-- The world counts the requests; the first one gets no answer.
abbrev flaky : Client
flaky = record { World = ℕ; send = λ w req. (elim w [ zero ↦ error | suc n ↦ status 200 ], w + 1) }

abbrev cfg : NotificationConfig
cfg = with_hmac (new_config "http://hook") (7 ∷ [])

abbrev zeroes : NotifierMetrics
zeroes = record { sent = 0; failed = 0; retries = 0; dropped_4xx = 0 }

second_succeeds : deliver flaky plain 200 cfg (1 ∷ []) zeroes 0 ≡ (
  record { sent = 1; failed = 0; retries = 1; dropped_4xx = 0 },
  posts (request_of plain cfg (1 ∷ [])) ∷ sleeps 200 ∷ posts (request_of plain cfg (1 ∷ [])) ∷ [],
  2,
)
unfolding deliver
second_succeeds = refl

deliver-Ends_example :
    (k : ℕ) × Ends flaky
      (request_of plain cfg (1 ∷ []))
      k
      4
      200
      0
      zeroes
      0
      (deliver flaky plain 200 cfg (1 ∷ []) zeroes 0)
deliver-Ends_example = deliver-Ends flaky plain 200 cfg (1 ∷ []) zeroes 0 (omega arith)

verify-sign_example :
    (verify plain (7 ∷ []) (1 ∷ []) (scheme ++ sign plain (7 ∷ []) (1 ∷ [])) ≡ true)
    × ((header_value : List ℕ)
        → (verify plain (7 ∷ []) (1 ∷ []) header_value ≡ true)
          ↔ IsSigned plain (7 ∷ []) (1 ∷ []) header_value)
verify-sign_example = verify-sign plain (7 ∷ []) (1 ∷ [])
