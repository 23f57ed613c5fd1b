-- ===== src/Examples/AlertRuns.antt =====
-- crates/indexer/src/alerts.rs and the ledger of the deliveries: a claim, a request and its record.
use defi_tx_indexer.Prelude.{
  count_of, ℕ, Bool, length, ◌+◌, ◌≡◌, ◌≤◌, ◌<◌, ◌⊎◌, ◌↔◌, refl, true, false, none, some, List, [],
  ◌∷◌, ◌++◌, codes, arith, text_eq, contains,
}
use defi_tx_indexer.Validators.{webhook_url_is_safe}
use defi_tx_indexer.Alerts
use defi_tx_indexer.Alerts.{
  Delivery, Ledger, Status, status_of, find_delivery, has_key, try_claim_alert_match, is_pending,
  is_settled, claim_row, record_row, record_alert_delivery, upsert_delivery, reclaim, is_claimable,
  rerecord,
}
use defi_tx_indexer.Alerts.Claims.{try_claim_iff}
use defi_tx_indexer.Alerts.Exclusive.{claim_at_all, claims_exclusive}
use defi_tx_indexer.Alerts.Settled.{ReachesLimit, pending_claim}
use defi_tx_indexer.Alerts.Redact.{https, http, redact_urls}
use defi_tx_indexer.Alerts.NoUrl.{redact_urls-clear}
use defi_tx_indexer.Alerts.Dispatch.{
  AlertMatch, Post, success, delivered, claim_skipped, World, Externals, dispatch_item,
  claim_stale_after_secs,
}
use defi_tx_indexer.Alerts.Once
use defi_tx_indexer.Alerts.Once.{
  DispatchMetrics, Joined, outcome, returned_error, dispatch_once, dispatch_rate_once,
}
use defi_tx_indexer.Alerts.Once.Ends.{finished_tasks, dispatch_once_bounded, dispatch_once_ends}
use defi_tx_indexer.Alerts.Sent.{IsOutcomeOf, claim_of, dispatch_item_posts, dispatch_item_agrees}

-- A claim made at second 100, and a delivery.
abbrev held : Ledger
held = claim_row 100 7 (codes "t") ∷ record_row 90 7 (codes "u") true none ∷ []

try_claim_iff_example : ((try_claim_alert_match 200 7 (codes "t") 60 held).1 ≡ true) ↔ (
    (find_delivery 7 (codes "t") held ≡ none)
    ⊎ ((d : Delivery) × (find_delivery 7 (codes "t") held ≡ some d)
        × ((d.status ≡ Alerts.failed) ⊎ ((d.status ≡ Alerts.claimed) × (d.created_at + 60 < 200)))))
try_claim_iff_example = try_claim_iff 200 7 (codes "t") 60 held

claims_exclusive_example : (claim_at_all 7 (codes "v") 60 (130 ∷ 100 ∷ 160 ∷ []) held).1 ≤ 1
claims_exclusive_example =
    claims_exclusive 7 (codes "v") 60 100 (130 ∷ 100 ∷ 160 ∷ []) held
      ((omega arith, omega arith), ((omega arith, omega arith), ((omega arith, omega arith), tt)))

-- At second 160 the claim of second 100 has just reached its limit.
pending_claim_example :
    (((try_claim_alert_match 160 7 (codes "t") 60 held).1 ≡ true)
      × ((d : Delivery) → find_delivery 7 (codes "t") held ≡ some d → ¬ ReachesLimit 160 60 d))
    ⊎ (((try_claim_alert_match 160 7 (codes "t") 60 held).1 ≡ false)
        × (d : Delivery) × (find_delivery 7 (codes "t") held ≡ some d)
        × ReachesLimit 160 60 d)
pending_claim_example =
    pending_claim 160 7 (codes "t") 60 held (unfold is_pending is_settled has_key text_eq in refl)

redact_urls-clear_example :
    (contains https (redact_urls (codes "at https://a.b/c: no http://d")) ≡ false)
    × (contains http (redact_urls (codes "at https://a.b/c: no http://d")) ≡ false)
redact_urls-clear_example = redact_urls-clear (codes "at https://a.b/c: no http://d")

abbrev ext : Externals
ext = record {
  parse_url = λ s. some (record { scheme = codes "https"; host_str = some (codes "a.b") });
  parse_ip = λ s. none;
  decode_hex = λ s. some s;
  sign_payload = λ key body. key ++ body;
  payload_json = λ n s. s;
}

abbrev world : World
world = record {
  claim_at = 200;
  record_at = 201;
  claim_ok = true;
  record_ok = true;
  receiver = λ p. success;
}

abbrev alert : AlertMatch
alert = record {
  subscription_id = 7;
  tx_hash = codes "t";
  webhook_url = codes "https://a.b";
  signing_secret = codes "0b";
}

dispatch_item_posts_example :
    ((dispatch_item ext world alert held).posts ≡ [])
    ⊎ ((key : List ℕ) × (post : Post) × ((try_claim_alert_match 200 7
            (codes "t")
            claim_stale_after_secs
            held).1
          ≡ true)
        × (webhook_url_is_safe ext.parse_url ext.parse_ip (codes "https://a.b") ≡ none)
        × (ext.decode_hex (codes "0b") ≡ some key)
        × ((dispatch_item ext world alert held).posts ≡ post ∷ [])
        × (post.url ≡ codes "https://a.b")
        × (post.body ≡ codes "t")
        × (post.signature_hex ≡ key ++ post.body))
dispatch_item_posts_example = dispatch_item_posts ext world alert held

dispatch_item_agrees_example :
    ((◌≡◌ {A = Bool} true false)
      × ((dispatch_item ext world alert held).outcome ≡ none)
      × ((dispatch_item ext world alert held).ledger ≡ held)
      × ((dispatch_item ext world alert held).posts ≡ []))
    ⊎ ((◌≡◌ {A = Bool} true true)
        × IsOutcomeOf ext world alert
            (claim_of ext world alert held)
            held
            (dispatch_item ext world alert held))
dispatch_item_agrees_example = dispatch_item_agrees ext world alert held

-- Twelve rows, so that two wait at first; the tasks end from the last of the set to the first.
abbrev rows : List ℕ
rows = 1 ∷ 2 ∷ 3 ∷ 4 ∷ 5 ∷ 6 ∷ 7 ∷ 8 ∷ 9 ∷ 10 ∷ 11 ∷ 12 ∷ []

abbrev two_ends : List (ℕ × Joined)
two_ends = (9, outcome delivered) ∷ (8, Once.panicked) ∷ []

abbrev some_ends : List (ℕ × Joined)
some_ends =
    (7, outcome delivered)
      ∷ (6, returned_error)
      ∷ (5, outcome claim_skipped)
      ∷ (4, outcome delivered)
      ∷ (3, outcome delivered)
      ∷ (2, outcome delivered)
      ∷ (1, outcome delivered)
      ∷ (0, outcome delivered)
      ∷ two_ends
    ++ two_ends

abbrev zero_metrics : DispatchMetrics
zero_metrics = record {
  cycles = 1;
  attempted = 0;
  delivered = 0;
  failed = 0;
  unsafe_url_skipped = 0;
  claim_skipped = 0;
  rate_attempted = 0;
  rate_delivered = 0;
  rate_failed = 0;
}

dispatch_once_bounded_example :
    let c = dispatch_once two_ends rows zero_metrics in
    (length c.tasks ≤ 10)
    × ((c.iter ≡ []) ⊎ (length c.tasks ≡ 10))
    × ((p : ℕ → Bool)
        → count_of p c.ended + count_of p c.tasks + count_of p c.iter ≡ count_of p rows)
dispatch_once_bounded_example = dispatch_once_bounded two_ends rows zero_metrics

dispatch_once_ends_example :
    let c = dispatch_once some_ends rows zero_metrics in
    (c.tasks ≡ [])
    × (c.iter ≡ [])
    × ((p : ℕ → Bool) → count_of p c.ended ≡ count_of p rows)
    × (c.metrics.attempted ≡ 0 + 12)
    × (finished_tasks c.metrics ≡ finished_tasks zero_metrics + 12)
dispatch_once_ends_example = dispatch_once_ends some_ends rows zero_metrics (omega arith)
