-- ===== src/Alerts.antt =====
-- crates/db/src/queries.rs: the ledger of the webhook deliveries, `alert_delivery`. Times are in
-- seconds; `NOW()` is an argument.
pub mod Claims
pub mod Exclusive
pub mod Settled
pub mod Redact
pub mod NoUrl
pub mod Dispatch
pub mod Sent
pub mod Once
pub mod Subscriptions
pub mod Matches
pub mod Rate
use defi_tx_indexer.Prelude.{
  ℕ, ◌+◌, Bool, true, false, ◌&&◌, Option, none, some, List, [], ◌∷◌, Text, text_eq, ltb, ◌==◌,
  if◌then◌else◌,
}

pub data Status : Type 0 where
  claimed : Status
  delivered : Status
  failed : Status

-- A row of `alert_delivery`.
pub record Delivery : Type 0 where
  pub subscription_id : ℕ
  pub tx_hash : Text
  pub status : Status
  pub attempts : ℕ
  pub last_error : Option Text
  pub delivered_at : Option ℕ
  pub created_at : ℕ

abbrev pub Ledger : Type 0
Ledger = List Delivery

-- The primary key.
unfoldable pub has_key : ℕ → Text → Delivery → Bool
has_key subscription_id tx_hash d =
    (d.subscription_id == subscription_id) && text_eq d.tx_hash tx_hash

unfoldable pub find_delivery : ℕ → Text → Ledger → Option Delivery
unfolding has_key
find_delivery subscription_id tx_hash [] = none
find_delivery subscription_id tx_hash (d ∷ ds) =
    let rest = find_delivery subscription_id tx_hash ds in
    if has_key subscription_id tx_hash d then some d else rest

-- `INSERT … ON CONFLICT (subscription_id, tx_hash) DO UPDATE … WHERE …`: the row to insert, and the
-- row it becomes on a conflict, if the `WHERE` holds of it; with the ledger, whether a row was
-- affected.
unfoldable pub upsert_delivery : Delivery → (Delivery → Option Delivery) → Ledger → Ledger × Bool
unfolding has_key
upsert_delivery row update [] = (row ∷ [], true)
upsert_delivery row update (d ∷ ds) =
    let (ds', affected) = upsert_delivery row update ds in
    if has_key row.subscription_id row.tx_hash d
    then elim (update d) [ none ↦ (d ∷ ds, false) | some d' ↦ (d' ∷ ds, true) ]
    else (d ∷ ds', affected)

-- `status = 'failed' OR (status = 'claimed' AND created_at < NOW() - stale)`
unfoldable pub is_claimable : ℕ → ℕ → Delivery → Bool
is_claimable now stale_after_secs d = elim d.status [
  | claimed ↦ ltb (d.created_at + stale_after_secs) now
  | delivered ↦ false
  | failed ↦ true
]

-- The `DO UPDATE SET` of a claim.
abbrev pub reclaimed : ℕ → Delivery → Delivery
reclaimed now d = record d {
  status = claimed;
  attempts = d.attempts + 1;
  last_error = none;
  delivered_at = none;
  created_at = now;
}

unfoldable pub reclaim : ℕ → ℕ → Delivery → Option Delivery
unfolding is_claimable
reclaim now stale_after_secs d =
    if is_claimable now stale_after_secs d then some (reclaimed now d) else none

-- The row that a claim inserts.
abbrev pub claim_row : ℕ → ℕ → Text → Delivery
claim_row now subscription_id tx_hash = record {
  subscription_id = subscription_id;
  tx_hash = tx_hash;
  status = claimed;
  attempts = 1;
  last_error = none;
  delivered_at = none;
  created_at = now;
}

unfoldable pub try_claim_alert_match : ℕ → ℕ → Text → ℕ → Ledger → Ledger × Bool
unfolding upsert_delivery reclaim
try_claim_alert_match now subscription_id tx_hash stale_after_secs ledger =
    upsert_delivery (claim_row now subscription_id tx_hash) (reclaim now stale_after_secs) ledger

abbrev pub status_of : Bool → Status
status_of good = if good then delivered else failed

-- The `DO UPDATE SET` of a recorded outcome.
unfoldable pub rerecord : ℕ → Bool → Option Text → Delivery → Delivery
rerecord now good last_error d = record d {
  status = status_of good;
  attempts = d.attempts + 1;
  last_error = last_error;
  delivered_at = if good then some now else d.delivered_at;
}

-- The row that a recorded outcome inserts.
abbrev pub record_row : ℕ → ℕ → Text → Bool → Option Text → Delivery
record_row now subscription_id tx_hash good last_error = record {
  subscription_id = subscription_id;
  tx_hash = tx_hash;
  status = status_of good;
  attempts = 1;
  last_error = last_error;
  delivered_at = if good then some now else none;
  created_at = now;
}

unfoldable pub record_alert_delivery : ℕ → ℕ → Text → Bool → Option Text → Ledger → Ledger
unfolding upsert_delivery rerecord
record_alert_delivery now subscription_id tx_hash good last_error ledger =
    (upsert_delivery (record_row now subscription_id tx_hash good last_error)
      (λ d. some (rerecord now good last_error d)) ledger).0

-- The rows that keep a pair out of `find_pending_alert_matches`:
-- `status = 'delivered' OR (status = 'claimed' AND created_at > NOW() - stale)`.
unfoldable pub is_settled : ℕ → ℕ → Delivery → Bool
is_settled now stale_after_secs d = elim d.status [
  | claimed ↦ ltb now (d.created_at + stale_after_secs)
  | delivered ↦ true
  | failed ↦ false
]

-- `NOT EXISTS (…)`, for one pair
unfoldable pub is_pending : ℕ → ℕ → Text → ℕ → Ledger → Bool
unfolding has_key is_settled
is_pending now subscription_id tx_hash stale_after_secs [] = true
is_pending now subscription_id tx_hash stale_after_secs (d ∷ ds) =
    let rest = is_pending now subscription_id tx_hash stale_after_secs ds in
    if has_key subscription_id tx_hash d && is_settled now stale_after_secs d then false else rest
