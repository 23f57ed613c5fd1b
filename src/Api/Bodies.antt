-- ===== src/Api/Bodies.antt =====
-- crates/api/src/routes/alerts.rs: the body of a new subscription and the checks of its fields.
use defi_tx_indexer.Prelude.{
  ℕ, Bool, false, ◌&&◌, ◌||◌, Option, none, some, List, [], ◌∷◌, ◌++◌, Text, codes, text_eq, ◌==◌,
  if◌then◌else◌, is_some, strip_prefix, str_len, to_ascii_lowercase, is_ascii_hexdigit, all, ℤ,
  is_above_zero, is_natural,
}
use defi_tx_indexer.Db.Category.{ErrorCategory, from_str}
use defi_tx_indexer.Validators.{UnsafeUrlReason}
use defi_tx_indexer.Receipts.{integer_text}
use defi_tx_indexer.Alerts.Dispatch.{debug_reason}
use defi_tx_indexer.Api.{bad_request, internal, Result, ok, err, ◌>>=◌, ◌>>◌, require, ok_or}

pub record CreateBody : Type 0 where
  pub webhook_url : Text
  pub error_category : Option Text
  pub to_addr : Option Text
  pub sub_type : Option Text
  pub threshold_count : Option ℤ
  pub threshold_window_secs : Option ℤ
  pub debounce_secs : Option ℤ

-- On a lower-case text.
unfoldable pub is_evm_address : Text → Bool
unfolding strip_prefix str_len
is_evm_address lower = elim (strip_prefix (codes "0x") lower) [
  | none ↦ false
  | some hex ↦ (str_len hex == 40) && all is_ascii_hexdigit hex
]

-- The category of a body; an empty one is none.
unfoldable pub category_of_body : Option Text → Result (Option ErrorCategory)
unfolding from_str
category_of_body none = ok none
category_of_body (some []) = ok none
category_of_body (some (c ∷ s)) = elim (from_str (c ∷ s)) [
  | none ↦ err (bad_request (codes "invalid `error_category`: " ++ (c ∷ s)))
  | some k ↦ ok (some k)
]

unfoldable pub address_of : Option Text → Result (Option Text)
unfolding is_evm_address
address_of none = ok none
address_of (some []) = ok none
address_of (some (c ∷ s)) =
    if is_evm_address (to_ascii_lowercase (c ∷ s))
    then ok (some (to_ascii_lowercase (c ∷ s)))
    else err (bad_request (codes "invalid `to_addr` (expected 0x + 40 hex): " ++ (c ∷ s)))

unfoldable pub sub_type_of : Option Text → Result Text
unfolding text_eq
sub_type_of none = ok (codes "per_event")
sub_type_of (some s) =
    if text_eq s [] || text_eq s (codes "per_event")
    then ok (codes "per_event")
    else if text_eq s (codes "rate_threshold")
    then ok (codes "rate_threshold")
    else err
        (bad_request (codes "invalid `sub_type` (expected 'per_event' or 'rate_threshold'): " ++ s))

-- The three numbers of a rate subscription.
unfoldable pub rate_fields : CreateBody → Result (ℤ × ℤ × ℤ)
unfolding integer_text
rate_fields body = do
  count ←
      ok_or (bad_request (codes "rate_threshold requires `threshold_count` (> 0)"))
        body.threshold_count
  window ←
      ok_or (bad_request (codes "rate_threshold requires `threshold_window_secs` (> 0)"))
        body.threshold_window_secs
  debounce ←
      ok_or (bad_request (codes "rate_threshold requires `debounce_secs` (>= 0)"))
        body.debounce_secs
  require (is_above_zero count)
      (bad_request (codes "`threshold_count` must be > 0; got " ++ integer_text count))
  require (is_above_zero window)
      (bad_request (codes "`threshold_window_secs` must be > 0; got " ++ integer_text window))
  require (is_natural debounce)
      (bad_request (codes "`debounce_secs` must be >= 0; got " ++ integer_text debounce))
  ok (count, window, debounce)

-- A per-event subscription has none of the three numbers.
abbrev pub has_rate_field : CreateBody → Bool
has_rate_field body =
    is_some body.threshold_count
    || (is_some body.threshold_window_secs || is_some body.debounce_secs)

abbrev secret_bytes : ℕ
secret_bytes = 32

-- `generate_signing_secret`, on the answer of the operating system to a request for `secret_bytes`.
unfoldable pub generate_signing_secret : (List ℕ → Text) → Option (List ℕ) → Result Text
generate_signing_secret encode_hex none = err (internal (codes "rng unavailable"))
generate_signing_secret encode_hex (some bytes) = ok (encode_hex bytes)

unfoldable pub safe_url : Option UnsafeUrlReason → Result (Unit {0})
unfolding debug_reason
safe_url none = ok tt
safe_url (some reason) = err (bad_request (codes "unsafe webhook_url: " ++ debug_reason reason))
