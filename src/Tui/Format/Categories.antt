-- ===== src/Tui/Format/Categories.antt =====
-- The categories of the API, as the client reads them.
use defi_tx_indexer.Prelude.{◌≡◌, refl, some, Text, codes, text_eq}
use defi_tx_indexer.Db.Category.{
  ErrorCategory, insufficient_balance, insufficient_allowance, slippage_exceeded,
  slippage_amount_out, slippage_amount_in, slippage_price_impact, deadline_expired, unauthorized,
  transfer_failed, unknown, as_wire, from_str, match_str,
}
use defi_tx_indexer.Tui.Format.{normalize_category}

-- `Serialize` of `ErrorCategory`: the name of the variant.
unfoldable pub serialized : ErrorCategory → Text
serialized insufficient_balance = codes "InsufficientBalance"
serialized insufficient_allowance = codes "InsufficientAllowance"
serialized slippage_exceeded = codes "SlippageExceeded"
serialized slippage_amount_out = codes "SlippageAmountOut"
serialized slippage_amount_in = codes "SlippageAmountIn"
serialized slippage_price_impact = codes "SlippagePriceImpact"
serialized deadline_expired = codes "DeadlineExpired"
serialized unauthorized = codes "Unauthorized"
serialized transfer_failed = codes "TransferFailed"
serialized unknown = codes "Unknown"

-- Each category survives the way to the client and back: the name that the API writes is read as
-- the wire text, which is kept as it is, and which the API parses to the same category.
pub normalize_category-serialized :
    (c : ErrorCategory)
    → (normalize_category (serialized c) ≡ as_wire c)
      × (normalize_category (as_wire c) ≡ as_wire c)
      × (from_str (normalize_category (serialized c)) ≡ some c)
unfolding normalize_category match_str text_eq serialized as_wire from_str
normalize_category-serialized insufficient_balance = (refl, refl, refl)
normalize_category-serialized insufficient_allowance = (refl, refl, refl)
normalize_category-serialized slippage_exceeded = (refl, refl, refl)
normalize_category-serialized slippage_amount_out = (refl, refl, refl)
normalize_category-serialized slippage_amount_in = (refl, refl, refl)
normalize_category-serialized slippage_price_impact = (refl, refl, refl)
normalize_category-serialized deadline_expired = (refl, refl, refl)
normalize_category-serialized unauthorized = (refl, refl, refl)
normalize_category-serialized transfer_failed = (refl, refl, refl)
normalize_category-serialized unknown = (refl, refl, refl)
