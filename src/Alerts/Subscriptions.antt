-- ===== src/Alerts/Subscriptions.antt =====
-- crates/db/src/queries.rs and models.rs: the table `alert_subscription` and its statements. An id is
-- a number from a sequence, and a negative id is that of no row. `NOW()` is an argument.
use defi_tx_indexer.Prelude.{
  ℕ, suc, Bool, true, false, ◌&&◌, ◌||◌, not, Option, none, some, List, [], ◌∷◌, Text, codes,
  text_eq, ◌==◌, if◌then◌else◌, is_some, take, ℤ, is_above_zero, is_natural,
}
use defi_tx_indexer.Db.Category.{ErrorCategory}

pub record AlertSubscription : Type 0 where
  pub subscription_id : ℕ
  pub error_category : Option ErrorCategory
  pub to_addr : Option Text
  pub webhook_url : Text
  pub signing_secret : Text
  pub active : Bool
  pub created_at : ℕ
  pub sub_type : Text
  pub threshold_count : Option ℤ
  pub threshold_window_secs : Option ℤ
  pub debounce_secs : Option ℤ

-- The rows, the newest first, and the next id of the sequence.
pub record Subscriptions : Type 0 where
  pub next_id : ℕ
  pub rows : List AlertSubscription

-- `o IS NOT NULL AND` a test of its value
abbrev holds_of : (ℤ → Bool) → Option ℤ → Bool
holds_of p none = false
holds_of p (some z) = p z

-- The constraint `alert_subscription_rate_fields_chk`.
unfoldable pub rate_fields_chk : AlertSubscription → Bool
rate_fields_chk s =
    (text_eq s.sub_type (codes "per_event")
      && (not (is_some s.threshold_count)
          && (not (is_some s.threshold_window_secs) && not (is_some s.debounce_secs))))
    || (text_eq s.sub_type (codes "rate_threshold")
        && (holds_of is_above_zero s.threshold_count
            && (holds_of is_above_zero s.threshold_window_secs
                && holds_of is_natural s.debounce_secs)))

-- An insert takes an id of the sequence, whether or not the constraint then refuses the row.
unfoldable pub insert_row :
    AlertSubscription → Subscriptions → Subscriptions × Option AlertSubscription
unfolding rate_fields_chk
insert_row s t =
    let row = record s { subscription_id = t.next_id } in
    if rate_fields_chk row
    then (record { next_id = suc t.next_id; rows = row ∷ t.rows }, some row)
    else (record t { next_id = suc t.next_id }, none)

-- The row of an insert, but for its id.
abbrev pub per_event_row : ℕ → Option ErrorCategory → Option Text → Text → Text → AlertSubscription
per_event_row now error_category to_addr webhook_url signing_secret = record {
  subscription_id = 0;
  error_category = error_category;
  to_addr = to_addr;
  webhook_url = webhook_url;
  signing_secret = signing_secret;
  active = true;
  created_at = now;
  sub_type = codes "per_event";
  threshold_count = none;
  threshold_window_secs = none;
  debounce_secs = none;
}

abbrev pub rate_row :
    ℕ → Option ErrorCategory → Option Text → Text → Text → ℤ → ℤ → ℤ → AlertSubscription
rate_row now error_category to_addr webhook_url signing_secret threshold_count threshold_window_secs
      debounce_secs =
    record {
      subscription_id = 0;
      error_category = error_category;
      to_addr = to_addr;
      webhook_url = webhook_url;
      signing_secret = signing_secret;
      active = true;
      created_at = now;
      sub_type = codes "rate_threshold";
      threshold_count = some threshold_count;
      threshold_window_secs = some threshold_window_secs;
      debounce_secs = some debounce_secs;
    }

unfoldable pub insert_alert_subscription :
    ℕ
    → Option ErrorCategory
    → Option Text
    → Text
    → Text
    → Subscriptions
    → Subscriptions × Option AlertSubscription
unfolding insert_row
insert_alert_subscription now error_category to_addr webhook_url signing_secret t =
    insert_row (per_event_row now error_category to_addr webhook_url signing_secret) t

unfoldable pub insert_alert_subscription_rate :
    ℕ
    → Option ErrorCategory
    → Option Text
    → Text
    → Text
    → ℤ
    → ℤ
    → ℤ
    → Subscriptions
    → Subscriptions × Option AlertSubscription
unfolding insert_row
insert_alert_subscription_rate now error_category to_addr webhook_url signing_secret threshold_count
      threshold_window_secs debounce_secs t =
    insert_row
      (rate_row now error_category to_addr webhook_url signing_secret threshold_count
        threshold_window_secs debounce_secs)
      t

unfoldable pub list_alert_subscriptions : ℕ → Subscriptions → List AlertSubscription
list_alert_subscriptions limit t = take limit t.rows

-- `WHERE subscription_id = $1 AND active = TRUE`
abbrev pub is_active_row : ℕ → AlertSubscription → Bool
is_active_row subscription_id s = (s.subscription_id == subscription_id) && s.active

-- An update of the active row of an id: the rows, and the updated one.
unfoldable pub update_active :
    ℕ
    → (AlertSubscription → AlertSubscription)
    → List AlertSubscription
    → List AlertSubscription × Option AlertSubscription
update_active subscription_id f [] = ([], none)
update_active subscription_id f (s ∷ ss) =
    let (ss', updated) = update_active subscription_id f ss in
    if is_active_row subscription_id s then (f s ∷ ss, some (f s)) else (s ∷ ss', updated)

abbrev pub deactivated : AlertSubscription → AlertSubscription
deactivated s = record s { active = false }

abbrev pub with_secret : Text → AlertSubscription → AlertSubscription
with_secret new_secret s = record s { signing_secret = new_secret }

-- With the table, how many rows are affected.
unfoldable pub deactivate_alert_subscription : ℕ → Subscriptions → Subscriptions × ℕ
unfolding update_active
deactivate_alert_subscription subscription_id t =
    let (rows, updated) = update_active subscription_id deactivated t.rows in
    (record t { rows = rows }, if is_some updated then 1 else 0)

unfoldable pub rotate_alert_subscription_secret :
    ℕ → Text → Subscriptions → Subscriptions × Option AlertSubscription
unfolding update_active
rotate_alert_subscription_secret subscription_id new_secret t =
    let (rows, updated) = update_active subscription_id (with_secret new_secret) t.rows in
    (record t { rows = rows }, updated)
