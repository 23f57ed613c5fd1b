-- ===== src/Alerts/Dispatch.antt =====
-- crates/indexer/src/alerts.rs: `dispatch_item`, from the claim to the recorded outcome. The HMAC,
-- the hex decoding, the JSON of the body, the URL parsers and the receiver's answer are parameters.
use defi_tx_indexer.Prelude.{
  ℕ, Bool, true, false, Option, none, some, List, [], ◌∷◌, ◌++◌, Text, codes, if◌then◌else◌, take,
}
use defi_tx_indexer.Validators.{
  UnsafeUrlReason, invalid_url, non_https, no_host, loopback_host, private_ip, link_local_ip,
  unspecified_ip, multicast_ip, broadcast_ip, unique_local_ip, mdns_host, IpAddr, Url,
  webhook_url_is_safe,
}
use defi_tx_indexer.Alerts.{Ledger, try_claim_alert_match, record_alert_delivery}
use defi_tx_indexer.Alerts.Redact.{redact_urls}

pub record AlertMatch : Type 0 where
  pub subscription_id : ℕ
  pub tx_hash : Text
  pub webhook_url : Text
  pub signing_secret : Text

-- `{reason:?}`
unfoldable pub debug_reason : UnsafeUrlReason → Text
debug_reason invalid_url = codes "InvalidUrl"
debug_reason non_https = codes "NonHttps"
debug_reason no_host = codes "NoHost"
debug_reason loopback_host = codes "LoopbackHost"
debug_reason private_ip = codes "PrivateIp"
debug_reason link_local_ip = codes "LinkLocalIp"
debug_reason unspecified_ip = codes "UnspecifiedIp"
debug_reason multicast_ip = codes "MulticastIp"
debug_reason broadcast_ip = codes "BroadcastIp"
debug_reason unique_local_ip = codes "UniqueLocalIp"
debug_reason mdns_host = codes "MdnsHost"

-- A request of `post_signed`: the URL, the signature of the header and the body.
pub record Post : Type 0 where
  pub url : Text
  pub signature_hex : Text
  pub body : Text

-- The answer to a request: a success status, or the text of the error.
pub data Answer : Type 0 where
  success : Answer
  error : Text → Answer

pub data DispatchOutcome : Type 0 where
  delivered : DispatchOutcome
  failed : DispatchOutcome
  unsafe_url : DispatchOutcome
  claim_skipped : DispatchOutcome

unfoldable pub is_delivered : DispatchOutcome → Bool
is_delivered delivered = true
is_delivered failed = false
is_delivered unsafe_url = false
is_delivered claim_skipped = false

abbrev pub claim_stale_after_secs : ℕ
claim_stale_after_secs = 60

-- What surrounds one run of `dispatch_item`: the times of its two statements, whether the database
-- answers each, and the receiver.
pub record World : Type 0 where
  pub claim_at : ℕ
  pub record_at : ℕ
  pub claim_ok : Bool
  pub record_ok : Bool
  pub receiver : Post → Answer

-- The ledger afterwards, the requests sent, and the outcome; `none` is an error of the database.
pub record Dispatched : Type 0 where
  pub ledger : Ledger
  pub posts : List Post
  pub outcome : Option DispatchOutcome

pub record Externals : Type 0 where
  pub parse_url : Text → Option Url
  pub parse_ip : Text → Option IpAddr
  pub decode_hex : Text → Option (List ℕ)
  -- the hex of HMAC-SHA256, by key and body
  pub sign_payload : List ℕ → Text → Text
  -- the JSON of `AlertPayload`
  pub payload_json : ℕ → Text → Text

module _ (ext : Externals) where
  open ext use {parse_url, parse_ip, decode_hex, sign_payload, payload_json}

  -- Record the outcome, and return it if the database took it.
  unfoldable pub settle :
      World → AlertMatch → List Post → Bool → Option Text → DispatchOutcome → Ledger → Dispatched
  settle world item posts good last_error outcome ledger =
      if world.record_ok
      then record {
        ledger =
            record_alert_delivery world.record_at item.subscription_id item.tx_hash good last_error
              ledger;
        posts = posts;
        outcome = some outcome;
      }
      else record { ledger = ledger; posts = posts; outcome = none }

  unfoldable pub build_post : AlertMatch → List ℕ → Post
  build_post item key =
      let body = payload_json item.subscription_id item.tx_hash in
      record { url = item.webhook_url; signature_hex = sign_payload key body; body = body }

  unfoldable pub after_post : World → AlertMatch → Post → Answer → Ledger → Dispatched
  unfolding settle
  after_post world item post success ledger =
      settle world item (post ∷ []) true none delivered ledger
  after_post world item post (error e) ledger =
      settle world item (post ∷ []) false (some (take 500 (redact_urls e))) failed ledger

  unfoldable pub with_key : World → AlertMatch → Option (List ℕ) → Ledger → Dispatched
  unfolding settle build_post after_post
  with_key world item none ledger =
      settle world item [] false (some (codes "corrupt signing_secret (not hex)")) failed ledger
  with_key world item (some key) ledger =
      after_post world item (build_post item key) (world.receiver (build_post item key)) ledger

  unfoldable pub with_url : World → AlertMatch → Option UnsafeUrlReason → Ledger → Dispatched
  unfolding settle with_key debug_reason
  with_url world item (some reason) ledger =
      settle world item [] false (some (codes "unsafe url: " ++ debug_reason reason)) unsafe_url
        ledger
  with_url world item none ledger = with_key world item (decode_hex item.signing_secret) ledger

  -- Behind the claim.
  unfoldable pub with_claim : World → AlertMatch → Ledger × Bool → Dispatched
  unfolding with_url
  with_claim world item (ledger, false) = record {
    ledger = ledger;
    posts = [];
    outcome = some claim_skipped;
  }
  with_claim world item (ledger, true) =
      with_url world item (webhook_url_is_safe parse_url parse_ip item.webhook_url) ledger

  unfoldable pub dispatch_item : World → AlertMatch → Ledger → Dispatched
  unfolding with_claim
  dispatch_item world item ledger =
      if world.claim_ok
      then with_claim world item (
          try_claim_alert_match world.claim_at item.subscription_id item.tx_hash
            claim_stale_after_secs ledger)
      else record { ledger = ledger; posts = []; outcome = none }
