-- ===== src/Alerts/Rate.antt =====
-- crates/indexer/src/alerts.rs: `dispatch_rate_item`, from the match to the recorded outcome. The HMAC,
-- the hex decoding, the JSON of the body, the URL parsers and the receiver's answer are parameters. A
-- count of matches is below 2^31, where its cast to an `i32` keeps it.
pub mod Quiet
use defi_tx_indexer.Prelude.{
  ℕ, Bool, true, false, Option, none, some, List, [], ◌∷◌, ◌++◌, Text, codes, if◌then◌else◌, take,
}
use defi_tx_indexer.Validators.{UnsafeUrlReason, IpAddr, Url, webhook_url_is_safe}
use defi_tx_indexer.Alerts.Redact.{redact_urls}
use defi_tx_indexer.Alerts.Dispatch.{
  Post, Answer, success, error, DispatchOutcome, delivered, failed, unsafe_url, debug_reason,
}
use defi_tx_indexer.Alerts.Matches.{RateAlertMatch, RateDispatch, record_rate_alert_dispatch}

pub record RateAlertPayload : Type 0 where
  pub subscription_id : ℕ
  pub sub_type : Text
  pub match_count : ℕ
  pub threshold_count : ℕ
  pub threshold_window_secs : ℕ

-- The time of the record, whether the database takes it, and the receiver.
pub record RateWorld : Type 0 where
  pub record_at : ℕ
  pub record_ok : Bool
  pub receiver : Post → Answer

-- The dispatches afterwards, the requests sent, and the outcome; `none` is an error of the database.
pub record RateDispatched : Type 0 where
  pub dispatches : List RateDispatch
  pub posts : List Post
  pub outcome : Option DispatchOutcome

pub record RateExternals : Type 0 where
  pub parse_url : Text → Option Url
  pub parse_ip : Text → Option IpAddr
  pub decode_hex : Text → Option (List ℕ)
  pub sign_payload : List ℕ → Text → Text
  pub payload_json : RateAlertPayload → Text

module _ (ext : RateExternals) (world : RateWorld) (item : RateAlertMatch) where
  open ext use {parse_url, parse_ip, decode_hex, sign_payload, payload_json}

  -- Record the outcome, and return it if the database took it.
  unfoldable pub record_outcome :
      List Post → Bool → Option Text → DispatchOutcome → List RateDispatch → RateDispatched
  unfolding record_rate_alert_dispatch
  record_outcome posts good last_error outcome dispatches =
      if world.record_ok
      then record {
        dispatches =
            record_rate_alert_dispatch world.record_at item.subscription_id item.match_count good
              last_error dispatches;
        posts = posts;
        outcome = some outcome;
      }
      else record { dispatches = dispatches; posts = posts; outcome = none }

  abbrev build_rate_payload : Text
  build_rate_payload = payload_json (record {
    subscription_id = item.subscription_id;
    sub_type = codes "rate_threshold";
    match_count = item.match_count;
    threshold_count = item.threshold_count;
    threshold_window_secs = item.threshold_window_secs;
  })

  abbrev rate_post : List ℕ → Post
  rate_post key = record {
    url = item.webhook_url;
    signature_hex = sign_payload key build_rate_payload;
    body = build_rate_payload;
  }

  unfoldable pub after_rate_post : Post → Answer → List RateDispatch → RateDispatched
  unfolding record_outcome
  after_rate_post post success dispatches =
      record_outcome (post ∷ []) true none delivered dispatches
  after_rate_post post (error e) dispatches =
      record_outcome (post ∷ []) false (some (take 500 (redact_urls e))) failed dispatches

  unfoldable pub with_rate_key : Option (List ℕ) → List RateDispatch → RateDispatched
  unfolding record_outcome after_rate_post
  with_rate_key none dispatches =
      record_outcome [] false (some (codes "corrupt signing_secret (not hex)")) failed dispatches
  with_rate_key (some key) dispatches =
      after_rate_post (rate_post key) (world.receiver (rate_post key)) dispatches

  unfoldable pub with_rate_url : Option UnsafeUrlReason → List RateDispatch → RateDispatched
  unfolding record_outcome with_rate_key debug_reason
  with_rate_url (some reason) dispatches =
      record_outcome [] false (some (codes "unsafe url: " ++ debug_reason reason)) unsafe_url
        dispatches
  with_rate_url none dispatches = with_rate_key (decode_hex item.signing_secret) dispatches

  unfoldable pub dispatch_rate_item : List RateDispatch → RateDispatched
  unfolding with_rate_url
  dispatch_rate_item dispatches =
      with_rate_url (webhook_url_is_safe parse_url parse_ip item.webhook_url) dispatches
