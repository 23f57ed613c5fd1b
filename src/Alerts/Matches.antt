-- ===== src/Alerts/Matches.antt =====
-- crates/db/src/queries.rs: the joins of the subscriptions with the failed transactions,
-- `find_pending_alert_matches` and `find_pending_rate_alert_matches`, and the table
-- `alert_rate_dispatch`. `NOW()` is an argument, in seconds. A comparison with NULL does not hold. The
-- hash of a transaction is its key, so a left join finds one row at most; of the matches with one hash
-- the database may return any first.
use defi_tx_indexer.Prelude.{
  ℕ, ◌+◌, Bool, true, false, ◌&&◌, not, Option, none, some, List, [], ◌∷◌, ◌++◌, Text, codes,
  text_eq, text_leb, ltb, leb, ◌==◌, if◌then◌else◌, take, any, ℤ, max_zero, count_of,
}
use defi_tx_indexer.Db.Category.{ErrorCategory, error_category_to_sql}
use defi_tx_indexer.Db.Rows.{FailedTransaction, Transaction, Tables}
use defi_tx_indexer.Alerts.{Ledger, is_pending}
use defi_tx_indexer.Alerts.Dispatch.{AlertMatch}
use defi_tx_indexer.Alerts.Subscriptions.{AlertSubscription, Subscriptions}

-- `error_category IS NULL OR error_category = …`
unfoldable pub category_matches : Option ErrorCategory → ErrorCategory → Bool
unfolding error_category_to_sql text_eq
category_matches none category = true
category_matches (some c) category =
    text_eq (error_category_to_sql c) (error_category_to_sql category)

-- The `to_addr` of the transaction of a hash, NULL if there is none.
unfoldable to_addr_of : Text → List Transaction → Option Text
unfolding text_eq
to_addr_of tx_hash [] = none
to_addr_of tx_hash (x ∷ xs) =
    let rest = to_addr_of tx_hash xs in if text_eq x.tx_hash tx_hash then x.to_addr else rest

-- `to_addr IS NULL OR to_addr = …`
unfoldable address_matches : Option Text → Option Text → Bool
address_matches none to_addr = true
address_matches (some a) none = false
address_matches (some a) (some b) = text_eq a b

unfoldable matches_failure : List Transaction → AlertSubscription → FailedTransaction → Bool
unfolding category_matches address_matches to_addr_of
matches_failure transactions s f =
    category_matches s.error_category f.error_category
    && address_matches s.to_addr (to_addr_of f.tx_hash transactions)

abbrev pub match_of : AlertSubscription → Text → AlertMatch
match_of s tx_hash = record {
  subscription_id = s.subscription_id;
  tx_hash = tx_hash;
  webhook_url = s.webhook_url;
  signing_secret = s.signing_secret;
}

-- The sort of a match to its place by the hash.
unfoldable pub insert_match : AlertMatch → List AlertMatch → List AlertMatch
unfolding text_leb
insert_match m [] = m ∷ []
insert_match m (n ∷ ns) =
    let rest = insert_match m ns in if text_leb m.tx_hash n.tx_hash then m ∷ n ∷ ns else n ∷ rest

module _ (now stale_after_secs : ℕ) (transactions : List Transaction) (ledger : Ledger) where
  -- Whether a pair is returned, if the limit allows.
  unfoldable pub is_match : AlertSubscription → FailedTransaction → Bool
  unfolding matches_failure is_pending
  is_match s f =
      s.active
      && (text_eq s.sub_type (codes "per_event")
          && (matches_failure transactions s f
              && is_pending now s.subscription_id f.tx_hash stale_after_secs ledger))

  unfoldable pub matches_of :
      AlertSubscription → List FailedTransaction → List AlertMatch → List AlertMatch
  unfolding is_match insert_match
  matches_of s [] ms = ms
  matches_of s (f ∷ fs) ms =
      let rest = matches_of s fs ms in
      if is_match s f then insert_match (match_of s f.tx_hash) rest else rest

  unfoldable pub all_matches : List AlertSubscription → List FailedTransaction → List AlertMatch
  unfolding matches_of
  all_matches [] fs = []
  all_matches (s ∷ ss) fs = matches_of s fs (all_matches ss fs)

unfoldable pub find_pending_alert_matches :
    ℕ → ℕ → ℕ → Tables → Subscriptions → Ledger → List AlertMatch
unfolding all_matches
find_pending_alert_matches now limit stale_after_secs tables t ledger =
    take limit (
      all_matches now stale_after_secs tables.transactions ledger t.rows tables.failed_transactions)

-- A row of `alert_rate_dispatch`.
pub record RateDispatch : Type 0 where
  pub subscription_id : ℕ
  pub dispatched_at : ℕ
  pub match_count : ℕ
  pub good : Bool
  pub last_error : Option Text

pub record RateAlertMatch : Type 0 where
  pub subscription_id : ℕ
  pub webhook_url : Text
  pub signing_secret : Text
  pub match_count : ℕ
  pub threshold_count : ℕ
  pub threshold_window_secs : ℕ

-- Whether a dispatch of the subscription lies within its debounce time.
unfoldable pub is_recent : ℕ → AlertSubscription → RateDispatch → Bool
is_recent now s d = elim s.debounce_secs [
  | none ↦ false
  | some secs ↦
      (d.subscription_id == s.subscription_id) && ltb now (d.dispatched_at + max_zero secs)
]

unfoldable pub in_window : ℕ → List Transaction → AlertSubscription → ℕ → FailedTransaction → Bool
unfolding matches_failure
in_window now transactions s window f =
    matches_failure transactions s f && leb now (f.timestamp + window)

module _ (now : ℕ) (tables : Tables) (dispatches : List RateDispatch) where
  -- The group of a subscription; one without a failure is none.
  unfoldable pub rate_group : AlertSubscription → ℕ → ℕ → Option RateAlertMatch
  unfolding in_window
  rate_group s threshold window =
      let count =
        count_of (in_window now tables.transactions s window) tables.failed_transactions in
      if leb 1 count && leb threshold count
      then some (record {
        subscription_id = s.subscription_id;
        webhook_url = s.webhook_url;
        signing_secret = s.signing_secret;
        match_count = count;
        threshold_count = threshold;
        threshold_window_secs = window;
      })
      else none

  -- The group of a subscription whose numbers are not NULL.
  unfoldable pub rate_fields_of : AlertSubscription → Option ℤ → Option ℤ → Option RateAlertMatch
  unfolding rate_group
  rate_fields_of s (some threshold) (some window) =
      rate_group s (max_zero threshold) (max_zero window)
  rate_fields_of s _ _ = none

  unfoldable pub rate_match : AlertSubscription → Option RateAlertMatch
  unfolding rate_fields_of is_recent
  rate_match s =
      if s.active
        && (text_eq s.sub_type (codes "rate_threshold") && not (any (is_recent now s) dispatches))
      then rate_fields_of s s.threshold_count s.threshold_window_secs
      else none

  -- By rising id: the rows have the newest first.
  unfoldable pub rate_matches : List AlertSubscription → List RateAlertMatch
  unfolding rate_match
  rate_matches [] = []
  rate_matches (s ∷ ss) = rate_matches ss ++ elim (rate_match s) [ none ↦ [] | some m ↦ m ∷ [] ]

unfoldable pub find_pending_rate_alert_matches :
    ℕ → ℕ → Tables → Subscriptions → List RateDispatch → List RateAlertMatch
unfolding rate_matches
find_pending_rate_alert_matches now limit tables t dispatches =
    take limit (rate_matches now tables dispatches t.rows)

unfoldable pub record_rate_alert_dispatch :
    ℕ → ℕ → ℕ → Bool → Option Text → List RateDispatch → List RateDispatch
record_rate_alert_dispatch now subscription_id match_count good last_error dispatches =
    record {
      subscription_id = subscription_id;
      dispatched_at = now;
      match_count = match_count;
      good = good;
      last_error = last_error;
    }
    ∷ dispatches
