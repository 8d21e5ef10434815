-- ===== src/Notifier.antt =====
-- crates/synchrotron-notifier/src/lib.rs: one webhook call per sync outcome, with retries. The HTTP client is
-- the interface Client; MAC and hex coding are the interface Mac. A header value is the list of its
-- characters' codes, durations are nanoseconds.
pub mod Delivery
pub mod Signature
pub mod Samples
use synchrotron.Base.{
  ℕ, zero, suc, ◌+◌, ◌*◌, ◌%◌, ◌^◌, min, max, ◌≡◌, Bool, true, false, ◌&&◌, Option, none, some,
  List, [], ◌∷◌, ◌++◌, String, String_eq, ℕ_eq, if◌then◌else◌, leb, ltb, nat_eq,
}
use synchrotron.Base.Map.{Map, get, insert}
use synchrotron.Base.Options.{and_then, map_option}
use synchrotron.Base.Text.{codes}
use synchrotron.Monitor.{duration_max}
use synchrotron.Reconcile.Report.{SyncOutcome}
use synchrotron.EventTrigger.{
  SystemEvent, repo_changed, repo_unchanged, repo_fetch_failed, webhook_triggered, sync_outcome,
  manual_sync_requested, app_changed, app_health_assessed,
}

pub record NotificationConfig : Type 0 where
  pub url : String
  pub hmac_secret : Option (List ℕ)
  pub max_attempts : ℕ

abbrev pub new_config : String → NotificationConfig
new_config url = record { url = url; hmac_secret = none; max_attempts = 4 }

abbrev pub with_hmac : NotificationConfig → List ℕ → NotificationConfig
with_hmac c secret = record c { hmac_secret = some secret }

abbrev pub with_max_attempts : NotificationConfig → ℕ → NotificationConfig
with_max_attempts c n = record c { max_attempts = max n 1 }

-- `StaticConfigSource`
abbrev pub insert_config :
    Map String NotificationConfig → String → NotificationConfig → Map String NotificationConfig
insert_config inner app cfg = insert inner app cfg

abbrev pub lookup : Map String NotificationConfig → String → Option NotificationConfig
lookup inner app = get inner app

pub record NotifierMetrics : Type 0 where
  pub sent : ℕ
  pub failed : ℕ
  pub retries : ℕ
  pub dropped_4xx : ℕ

-- `fetch_add(1)` on an `AtomicU64`
abbrev pub add_one : ℕ → ℕ
add_one counter = (counter + 1) % 2 ^ 64

pub record OutcomePayload : Type 0 where
  pub v : ℕ
  pub kind : String
  pub app : String
  pub cluster : String
  pub success : Bool
  pub message : Option String
  pub timestamp : String

-- The hmac, sha2 and hex crates: a MAC of 32 bytes, and hexadecimal text.
pub record Mac : Type 0 where
  pub finalize : List ℕ → List ℕ → List ℕ
  pub verify_slice : (secret body sig : List ℕ) → Bool
  pub encode : List ℕ → List ℕ
  pub decode : List ℕ → Option (List ℕ)
  pub decode-encode : (bytes : List ℕ) → decode (encode bytes) ≡ some bytes
  pub verify-finalize :
      (secret body : List ℕ) → verify_slice secret body (finalize secret body) ≡ true
  pub verify-eq :
      (secret body sig : List ℕ) → verify_slice secret body sig ≡ true → sig ≡ finalize secret body

abbrev pub sign : Mac → List ℕ → List ℕ → List ℕ
sign M secret body = M.encode (M.finalize secret body)

abbrev pub scheme : List ℕ
scheme = codes "sha256="

unfoldable pub strip_prefix : List ℕ → List ℕ → Option (List ℕ)
strip_prefix [] text = some text
strip_prefix (a ∷ prefix) [] = none
strip_prefix (a ∷ prefix) (b ∷ text) =
    let rest = strip_prefix prefix text in if nat_eq a b then rest else none

abbrev pub verify_sig : Mac → List ℕ → List ℕ → Option (List ℕ) → Bool
verify_sig M secret body none = false
verify_sig M secret body (some sig) = M.verify_slice secret body sig

unfoldable pub verify : Mac → List ℕ → List ℕ → List ℕ → Bool
unfolding strip_prefix
verify M secret body header_value =
    verify_sig M secret body (and_then (strip_prefix scheme header_value) M.decode)

pub record Request : Type 0 where
  pub url : String
  pub body : List ℕ
  pub signature : Option (List ℕ)

-- What comes back of a request: the status, or no answer
pub data Answer : Type 0 where
  status : ℕ → Answer
  error : Answer

-- The reqwest client and the network behind it
pub record Client : Type 1 where
  pub World : Type 0
  pub send : World → Request → Answer × World

pub data Verdict : Type 0 where
  delivered client_error retry : Verdict

-- `is_success` and `is_client_error` of the http crate's status codes
abbrev pub judge : Answer → Verdict
judge (status code) =
    if leb 200 code && ltb code 300
    then delivered
    else if leb 400 code && ltb code 500
    then client_error
    else retry
judge error = retry

-- What a delivery does to the outside, in its order
pub data Act : Type 0 where
  posts : Request → Act
  sleeps : ℕ → Act

-- A delivery: its metrics, its acts, and the world
abbrev pub Delivery : Client → Type 0
Delivery C = NotifierMetrics × List Act × C.World

module _ (C : Client) where
  abbrev pub before : List Act → Delivery C → Delivery C
  before acts (m, later, w) = (m, acts ++ later, w)

  abbrev pub gives_up : NotifierMetrics → C.World → Delivery C
  gives_up m w = (record m { failed = add_one m.failed }, [], w)

  -- After an attempt was answered; `rest` is the loop's next round.
  abbrev pub settle_attempt :
      (is_last : Bool)
      → ℕ
      → Verdict
      → NotifierMetrics
      → C.World
      → (NotifierMetrics → C.World → Delivery C)
      → Delivery C
  settle_attempt is_last delay delivered m w rest = (record m { sent = add_one m.sent }, [], w)
  settle_attempt is_last delay client_error m w rest =
      (record m { dropped_4xx = add_one m.dropped_4xx; failed = add_one m.failed }, [], w)
  settle_attempt true delay retry m w rest = gives_up m w
  settle_attempt false delay retry m w rest =
      before (sleeps delay ∷ []) (rest (record m { retries = add_one m.retries }) w)

  -- The rounds that are left of `1..=max_attempts`
  unfoldable pub attempts :
      ℕ → Request → (max_attempts attempt delay : ℕ) → NotifierMetrics → C.World → Delivery C
  attempts zero req max_attempts attempt delay m w = (m, [], w)
  attempts (suc left) req max_attempts attempt delay m w =
      let (answer, w') = C.send w req in
      before (posts req ∷ []) (
        settle_attempt (nat_eq attempt max_attempts) delay (judge answer) m w'
          (attempts left req max_attempts (attempt + 1) (min (delay * 2) duration_max)))

  unfoldable pub deliver :
      Mac
      → (backoff_base : ℕ) → NotificationConfig
      → List ℕ
      → NotifierMetrics
      → C.World
      → Delivery C
  unfolding attempts
  deliver M backoff_base cfg body m w =
      let signature = map_option (λ s. scheme ++ sign M s body) cfg.hmac_secret in
      let req : Request = record { url = cfg.url; body = body; signature = signature } in
      attempts cfg.max_attempts req cfg.max_attempts 1 backoff_base m w

  abbrev pub payload_of : SyncOutcome → String → OutcomePayload
  payload_of o at = record {
    v = 1;
    kind = "sync_outcome";
    app = o.app;
    cluster = o.cluster;
    success = o.success;
    message = o.message;
    timestamp = at;
  }

  abbrev pub deliver_body :
      Mac → ℕ → NotificationConfig → Option (List ℕ) → NotifierMetrics → C.World → Delivery C
  deliver_body M base cfg none m w = gives_up m w
  deliver_body M base cfg (some body) m w = deliver M base cfg body m w

  abbrev pub notify :
      Mac → ℕ → Option NotificationConfig → Option (List ℕ) → NotifierMetrics → C.World → Delivery C
  notify M base none body m w = (m, [], w)
  notify M base (some cfg) body m w = deliver_body M base cfg body m w

  -- One round of `run`: the event and its time, the app's config, and the payload as JSON
  unfoldable pub run_event :
      Mac
      → ℕ
      → (String → Option NotificationConfig)
      → (OutcomePayload → Option (List ℕ))
      → SystemEvent
      → String
      → NotifierMetrics
      → C.World
      → Delivery C
  unfolding deliver
  run_event M base config to_vec (sync_outcome o) at m w =
      notify M base (config o.app) (to_vec (payload_of o at)) m w
  run_event M base config to_vec (repo_changed repo new_head) at m w = (m, [], w)
  run_event M base config to_vec (repo_unchanged repo head) at m w = (m, [], w)
  run_event M base config to_vec (repo_fetch_failed repo e) at m w = (m, [], w)
  run_event M base config to_vec (webhook_triggered repo source) at m w = (m, [], w)
  run_event M base config to_vec (manual_sync_requested app) at m w = (m, [], w)
  run_event M base config to_vec (app_changed app repo) at m w = (m, [], w)
  run_event M base config to_vec (app_health_assessed app cluster s message) at m w = (m, [], w)
