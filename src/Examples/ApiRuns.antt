-- ===== src/Examples/ApiRuns.antt =====
-- Runs of the API's handlers of the subscriptions.
use defi_tx_indexer.Prelude.{
  ℕ, zero, suc, ◌<◌, ◌≡◌, ◌≢◌, refl, subst, ap, text_eq, eq→text_eq, to_ascii_lowercase,
  strip_suffix, true, Option, none, some, List, [], ◌∷◌, ◌++◌, Text, codes, All, replicate, map,
  arith, pos,
}
use defi_tx_indexer.Validators.{Url, IpAddr, webhook_url_is_safe}
use defi_tx_indexer.Alerts.Subscriptions.{
  Subscriptions, deactivate_alert_subscription, insert_alert_subscription,
  insert_alert_subscription_rate,
}
use defi_tx_indexer.Api.{Header, missing, opaque, visible, unauthorized, from_request_parts}
use defi_tx_indexer.Api.Bodies.{CreateBody}
use defi_tx_indexer.Api.Shown.{listed}
use defi_tx_indexer.Api.Subscriptions.{
  Externals, Outside, failed, no_content, Call, Request, create, list, deactivate, rotate, serve,
  serve_all, typed_insert,
}
use defi_tx_indexer.Api.Sound.{IsBytes, IsTable}
use defi_tx_indexer.Api.Checked.{HasBytes}
use defi_tx_indexer.Api.Kept.{serve_all-IsTable}
use defi_tx_indexer.Api.Guarded.{serve_all-blind}

abbrev key_text : Text
key_text = codes "key"

abbrev pub https_url : Text → Option Url
https_url s = some (record { scheme = codes "https"; host_str = some (codes "hooks.example.com") })

abbrev pub no_ip : Text → Option IpAddr
no_ip s = none

-- A byte is its own hex here.
abbrev pub api : Externals
api = record {
  admin_api_key = key_text;
  encode_hex = λ bytes. bytes;
  parse_url = https_url;
  parse_ip = no_ip;
}

abbrev pub bytes : ℕ → List ℕ
bytes b = replicate 32 b

abbrev outside : ℕ → Outside
outside b = record { random = some (bytes b); now = 5; database_up = true }

abbrev every_event : CreateBody
every_event = record {
  webhook_url = codes "https://hooks.example.com/a";
  error_category = some (codes "SLIPPAGE_EXCEEDED");
  to_addr = none;
  sub_type = none;
  threshold_count = none;
  threshold_window_secs = none;
  debounce_secs = none;
}

abbrev one_in_a_minute : CreateBody
one_in_a_minute = record every_event {
  sub_type = some (codes "rate_threshold");
  threshold_count = some (pos 1);
  threshold_window_secs = some (pos 60);
  debounce_secs = some (pos 300);
}

abbrev key_header : Header
key_header = visible (codes "Bearer key")

abbrev call : ℕ → Header → Request → Call
call b header request = record { out = outside b; header = header; request = request }

abbrev empty : Subscriptions
empty = record { next_id = 1; rows = [] }

abbrev pub two_calls : List Call
two_calls = call 7 key_header (create every_event) ∷ call 8 key_header (create one_in_a_minute) ∷ []

abbrev some_calls : List Call
some_calls =
    call 7 key_header (create every_event)
    ∷ call 8 missing (create every_event)
    ∷ call 9 key_header (rotate 1)
    ∷ call 8 key_header (create one_in_a_minute)
    ∷ call 8 key_header (deactivate 1)
    ∷ call 8 missing (list none)
    ∷ []

abbrev pub table : Subscriptions
table = (serve_all api two_calls empty).0

without_key : (serve api (outside 8) missing (create every_event) empty).1 ≡ failed unauthorized
unfolding serve from_request_parts
without_key = refl

deactivated_once : (serve api (outside 8) key_header (deactivate 2) table).1 ≡ no_content
unfolding serve serve_all deactivate_alert_subscription from_request_parts webhook_url_is_safe
    to_ascii_lowercase strip_suffix typed_insert insert_alert_subscription_rate
    insert_alert_subscription
deactivated_once = refl

All-replicate {κ} : (P : ℕ → Type κ) (n b : ℕ) → P b → All P (replicate n b)
All-replicate P zero b p = tt
All-replicate P (suc n) b p = (p, All-replicate P n b p)

pub outside-HasBytes : (b : ℕ) → b < 256 → HasBytes (outside b)
outside-HasBytes b small xs e =
    let same : bytes b ≡ xs = cc in
    subst IsBytes same (refl, All-replicate (λ x. x < 256) 32 b small)

pub seven : 7 < 256
seven = omega arith

pub eight : 8 < 256
eight = omega arith

nine : 9 < 256
nine = omega arith

serve_all-IsTable_example : IsTable api (serve_all api some_calls empty).0
serve_all-IsTable_example =
    serve_all-IsTable api some_calls empty
      (
        outside-HasBytes 7 seven,
        (
          outside-HasBytes 8 eight,
          (
            outside-HasBytes 9 nine,
            (outside-HasBytes 8 eight, (outside-HasBytes 8 eight, (outside-HasBytes 8 eight, tt))),
          ),
        ),
      )
      (tt, tt)

-- The same subscriptions with other secrets.
abbrev other_table : Subscriptions
other_table =
    (serve_all api
      (call 1 key_header (create every_event) ∷ call 2 key_header (create one_in_a_minute) ∷ [])
      empty).0

abbrev stranger_calls : List Call
stranger_calls = call 7 missing (list none) ∷ call 8 (visible (codes "Bearer kex")) (rotate 1) ∷ []

same_listing : map listed table.rows ≡ map listed other_table.rows
unfolding serve_all from_request_parts webhook_url_is_safe to_ascii_lowercase strip_suffix
    typed_insert insert_alert_subscription_rate insert_alert_subscription
same_listing = refl

header_text : Header → Text
header_text missing = []
header_text opaque = []
header_text (visible s) = s

missing-key : missing ≢ visible (codes "Bearer " ++ key_text)
missing-key e = cc

wrong-key : visible (codes "Bearer kex") ≢ visible (codes "Bearer " ++ key_text)
unfolding header_text
wrong-key e =
    let same : text_eq (codes "Bearer kex") (codes "Bearer " ++ key_text) ≡ true =
      eq→text_eq _ _ (ap header_text e) in
    absurd (unfold text_eq in cc)

serve_all-blind_example :
    ((serve_all api stranger_calls table).0 ≡ table)
    × ((serve_all api stranger_calls table).1 ≡ (serve_all api stranger_calls other_table).1)
serve_all-blind_example =
    serve_all-blind api stranger_calls table other_table (missing-key, (wrong-key, tt)) same_listing
