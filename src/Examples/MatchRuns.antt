-- ===== src/Examples/MatchRuns.antt =====
-- Runs of the alerts of the subscriptions that the API lets in.
use defi_tx_indexer.Prelude.{
  ℕ, ◌+◌, ◌<◌, ◌≡◌, ◌≢◌, refl, to_ascii_lowercase, strip_suffix, strip_prefix, count_of, true,
  Option, none, some, List, [], ◌∷◌, ◌++◌, Text, codes, All, map, get_elem?, arith, pos,
}
use defi_tx_indexer.Db.Category.{slippage_exceeded}
use defi_tx_indexer.Db.Rows.{FailedTransaction, Tables}
use defi_tx_indexer.Validators.{webhook_url_is_safe}
use defi_tx_indexer.Alerts.{try_claim_alert_match}
use defi_tx_indexer.Alerts.Dispatch.{
  AlertMatch, Post, World, success, error, DispatchOutcome, dispatch_item,
}
use defi_tx_indexer.Alerts.Subscriptions.{
  AlertSubscription, Subscriptions, rate_row, insert_alert_subscription,
  insert_alert_subscription_rate,
}
use defi_tx_indexer.Alerts.Matches.{
  RateAlertMatch, find_pending_alert_matches, find_pending_rate_alert_matches,
}
use defi_tx_indexer.Alerts.Rate.{RateExternals, RateWorld, dispatch_rate_item}
use defi_tx_indexer.Alerts.Rate.Quiet.{rate_alert_quiet}
use defi_tx_indexer.Api.{from_request_parts}
use defi_tx_indexer.Api.Subscriptions.{serve_all, typed_insert}
use defi_tx_indexer.Api.Sound.{IsBytes}
use defi_tx_indexer.Api.Delivered.{dispatcher, pending_sent}
use defi_tx_indexer.Examples.ApiRuns.{
  https_url, no_ip, api, bytes, two_calls, table, outside-HasBytes, seven, eight,
}

abbrev pub failure : FailedTransaction
failure = record {
  tx_hash = codes "0x01";
  error_category = slippage_exceeded;
  revert_reason = none;
  failing_function = none;
  gas_used = pos 21000;
  timestamp = 40;
}

abbrev tables : Tables
tables = record {
  blocks = [];
  transactions = [];
  swap_events = [];
  liquidity_events = [];
  token_transfers = [];
  failed_transactions = failure ∷ [];
  trace_logs = [];
  checkpoint = none;
}

abbrev due : AlertMatch
due = record {
  subscription_id = 1;
  tx_hash = codes "0x01";
  webhook_url = codes "https://hooks.example.com/a";
  signing_secret = bytes 7;
}

is_due : get_elem? (find_pending_alert_matches 50 10 60 tables table []) 0 ≡ some due
unfolding find_pending_alert_matches serve_all from_request_parts webhook_url_is_safe
    to_ascii_lowercase strip_suffix typed_insert insert_alert_subscription_rate
    insert_alert_subscription
is_due = refl

abbrev as_bytes : Text → Option (List ℕ)
as_bytes s = some s

abbrev tag : List ℕ → Text → Text
tag key body = key ++ body

abbrev payload : ℕ → Text → Text
payload id tx_hash = tx_hash

abbrev world : World
world = record {
  claim_at = 51;
  record_at = 52;
  claim_ok = true;
  record_ok = true;
  receiver = λ post. success;
}

granted : (try_claim_alert_match 51 1 (codes "0x01") 60 []).1 ≡ true
unfolding try_claim_alert_match
granted = refl

pending_sent_example :
    (key : List ℕ) × (post : Post) × IsBytes key
    × (bytes 7 ≡ api.encode_hex key)
    × ((dispatch_item (dispatcher api as_bytes tag payload) world due []).posts ≡ post ∷ [])
    × (post.url ≡ codes "https://hooks.example.com/a")
    × (post.body ≡ codes "0x01")
    × (post.signature_hex ≡ key ++ post.body)
pending_sent_example =
    pending_sent api as_bytes tag payload (λ xs small. refl) two_calls
      (outside-HasBytes 7 seven, (outside-HasBytes 8 eight, tt)) 50 10 60 tables [] 0 due is_due
      world [] refl granted

abbrev rate_ext : RateExternals
rate_ext = record {
  parse_url = https_url;
  parse_ip = no_ip;
  decode_hex = as_bytes;
  sign_payload = tag;
  payload_json = λ p. p.sub_type;
}

abbrev rate_world : RateWorld
rate_world = record { record_at = 52; record_ok = true; receiver = λ post. error (codes "down") }

abbrev rate_due : RateAlertMatch
rate_due = record {
  subscription_id = 2;
  webhook_url = codes "https://hooks.example.com/a";
  signing_secret = bytes 8;
  match_count = 1;
  threshold_count = 1;
  threshold_window_secs = 60;
}

is_rate_due : find_pending_rate_alert_matches 50 10 tables table [] ≡ rate_due ∷ []
unfolding find_pending_rate_alert_matches serve_all count_of from_request_parts webhook_url_is_safe
    to_ascii_lowercase strip_suffix typed_insert insert_alert_subscription_rate
    insert_alert_subscription
is_rate_due = refl

abbrev every_minute : ℕ → AlertSubscription
every_minute id =
    record (rate_row 5 none none (codes "https://hooks.example.com/a") (bytes 8) (pos 1) (pos 60)
      (pos 300)) { subscription_id = id }

abbrev two_rates : Subscriptions
two_rates = record { next_id = 4; rows = every_minute 3 ∷ every_minute 2 ∷ [] }

returned :
    (dispatch_rate_item rate_ext rate_world rate_due []).outcome ≡ some DispatchOutcome.failed
unfolding dispatch_rate_item webhook_url_is_safe to_ascii_lowercase strip_suffix strip_prefix
returned = refl

early : 60 < 52 + 300
early = omega arith

has_debounce :
    (s : AlertSubscription)
    → s.debounce_secs ≡ some (pos 300)
    → s.subscription_id ≡ 2
    → s.debounce_secs ≡ some (pos 300)
has_debounce s e same = e

-- The other subscription's match is still returned.
other_is_due :
    map
      (λ m. m.subscription_id)
      (find_pending_rate_alert_matches 60 10 tables two_rates
        ([] ++ (dispatch_rate_item rate_ext rate_world rate_due []).dispatches))
    ≡ 3 ∷ []
unfolding find_pending_rate_alert_matches dispatch_rate_item webhook_url_is_safe to_ascii_lowercase
    strip_suffix strip_prefix count_of
other_is_due = refl

rate_alert_quiet_example :
    All
      (λ m. m.subscription_id ≢ 2)
      (find_pending_rate_alert_matches 60 10 tables two_rates
        ([] ++ (dispatch_rate_item rate_ext rate_world rate_due []).dispatches))
rate_alert_quiet_example =
    rate_alert_quiet rate_ext rate_world rate_due [] [] DispatchOutcome.failed 300 60 10 tables
      two_rates returned early
      (has_debounce (every_minute 3) refl, (has_debounce (every_minute 2) refl, tt))
