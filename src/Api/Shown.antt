-- ===== src/Api/Shown.antt =====
-- crates/db/src/models.rs: what the API shows of a subscription, once with its secret and else without.
use defi_tx_indexer.Prelude.{ℕ, Bool, Option, Text, ℤ}
use defi_tx_indexer.Db.Category.{ErrorCategory}
use defi_tx_indexer.Alerts.Subscriptions.{AlertSubscription}

-- `AlertSubscriptionCreated`
pub record Created : Type 0 where
  pub subscription_id : ℕ
  pub error_category : Option ErrorCategory
  pub to_addr : Option Text
  pub webhook_url : Text
  pub signing_secret : Text
  pub active : Bool
  pub created_at : ℕ
  pub sub_type : Text
  pub threshold_count : Option ℤ
  pub threshold_window_secs : Option ℤ
  pub debounce_secs : Option ℤ

abbrev pub created_from : AlertSubscription → Created
created_from s = record {
  subscription_id = s.subscription_id;
  error_category = s.error_category;
  to_addr = s.to_addr;
  webhook_url = s.webhook_url;
  signing_secret = s.signing_secret;
  active = s.active;
  created_at = s.created_at;
  sub_type = s.sub_type;
  threshold_count = s.threshold_count;
  threshold_window_secs = s.threshold_window_secs;
  debounce_secs = s.debounce_secs;
}

-- What is serialized of an `AlertSubscription`: `signing_secret` is skipped.
pub record Listed : Type 0 where
  pub subscription_id : ℕ
  pub error_category : Option ErrorCategory
  pub to_addr : Option Text
  pub webhook_url : Text
  pub active : Bool
  pub created_at : ℕ
  pub sub_type : Text
  pub threshold_count : Option ℤ
  pub threshold_window_secs : Option ℤ
  pub debounce_secs : Option ℤ

abbrev pub listed : AlertSubscription → Listed
listed s = record {
  subscription_id = s.subscription_id;
  error_category = s.error_category;
  to_addr = s.to_addr;
  webhook_url = s.webhook_url;
  active = s.active;
  created_at = s.created_at;
  sub_type = s.sub_type;
  threshold_count = s.threshold_count;
  threshold_window_secs = s.threshold_window_secs;
  debounce_secs = s.debounce_secs;
}
