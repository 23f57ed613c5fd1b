-- ===== src/Classifier.antt =====
-- crates/decoder/src/classifier.rs: `classify_error`, and crates/indexer/src/worker.rs: the category
-- that is stored for what it returns. Lower case is written out for ASCII; for the other characters
-- the mapping of Unicode is a parameter, one character at a time.
pub mod Stored
pub mod Cases
use defi_tx_indexer.Prelude.{
  ℕ, Bool, false, ◌||◌, none, some, List, [], ◌∷◌, ◌++◌, Text, codes, contains, ltb, ascii_lower,
  if◌then◌else◌,
}
use defi_tx_indexer.Db.Category.{
  ErrorCategory, insufficient_balance, slippage_exceeded, deadline_expired, unauthorized,
  transfer_failed, unknown, match_str,
}

-- `str::to_lowercase`
unfoldable pub to_lowercase : (ℕ → Text) → Text → Text
to_lowercase lower_other [] = []
to_lowercase lower_other (c ∷ s) =
    (if ltb c 128 then ascii_lower c ∷ [] else lower_other c) ++ to_lowercase lower_other s

-- One of the keywords is in the text.
unfoldable pub contains_any : List Text → Text → Bool
contains_any [] s = false
contains_any (k ∷ ks) s = contains k s || contains_any ks s

-- The keywords of the rules, in the order of the rules.
abbrev pub allowance_words : List Text
allowance_words = codes "allowance" ∷ []

abbrev pub aggregator_words : List Text
aggregator_words = codes "return amount is not enough" ∷ codes "min return" ∷ []

abbrev pub balance_words : List Text
balance_words =
    codes "stf"
    ∷ codes "insufficient"
    ∷ codes "balance"
    ∷ codes "exceeds balance"
    ∷ codes "not enough"
    ∷ []

abbrev pub amount_out_words : List Text
amount_out_words = codes "too little received" ∷ []

abbrev pub amount_in_words : List Text
amount_in_words = codes "too much requested" ∷ []

abbrev pub price_impact_words : List Text
price_impact_words = codes "price slipped" ∷ codes "amount out" ∷ []

abbrev pub slippage_words : List Text
slippage_words = codes "slippage" ∷ []

abbrev pub deadline_words : List Text
deadline_words =
    codes "deadline" ∷ codes "too old" ∷ codes "expired" ∷ codes "transaction too old" ∷ []

abbrev pub unauthorized_words : List Text
unauthorized_words =
    codes "unauthorized"
    ∷ codes "ownable"
    ∷ codes "not owner"
    ∷ codes "forbidden"
    ∷ codes "access denied"
    ∷ []

abbrev pub transfer_words : List Text
transfer_words =
    codes "transfer failed"
    ∷ codes "transfer_failed"
    ∷ codes "transfer_from_failed"
    ∷ codes "transfer from failed"
    ∷ codes "safe transfer"
    ∷ codes "safetransferfrom"
    ∷ []

-- `classify_error`, behind the conversion to lower case
unfoldable pub classify_lower : Text → Text
unfolding contains_any
classify_lower lower =
    if contains_any allowance_words lower
    then codes "INSUFFICIENT_ALLOWANCE"
    else if contains_any aggregator_words lower
    then codes "SLIPPAGE_AMOUNT_OUT"
    else if contains_any balance_words lower
    then codes "INSUFFICIENT_BALANCE"
    else if contains_any amount_out_words lower
    then codes "SLIPPAGE_AMOUNT_OUT"
    else if contains_any amount_in_words lower
    then codes "SLIPPAGE_AMOUNT_IN"
    else if contains_any price_impact_words lower
    then codes "SLIPPAGE_PRICE_IMPACT"
    else if contains_any slippage_words lower
    then codes "SLIPPAGE_EXCEEDED"
    else if contains_any deadline_words lower
    then codes "DEADLINE_EXPIRED"
    else if contains_any unauthorized_words lower
    then codes "UNAUTHORIZED"
    else if contains_any transfer_words lower
    then codes "TRANSFER_FAILED"
    else codes "UNKNOWN"

unfoldable pub classify_error : (ℕ → Text) → Text → Text
unfolding to_lowercase classify_lower
classify_error lower_other revert_reason = classify_lower (to_lowercase lower_other revert_reason)

-- The arms of the `match error_category` of `process_failed_txs`.
abbrev pub stored : List (Text × ErrorCategory)
stored =
    (codes "INSUFFICIENT_BALANCE", insufficient_balance)
    ∷ (codes "SLIPPAGE_EXCEEDED", slippage_exceeded)
    ∷ (codes "DEADLINE_EXPIRED", deadline_expired)
    ∷ (codes "UNAUTHORIZED", unauthorized)
    ∷ (codes "TRANSFER_FAILED", transfer_failed)
    ∷ []

unfoldable pub stored_category : Text → ErrorCategory
unfolding match_str
stored_category error_category = elim (match_str stored error_category) [
  | none ↦ unknown
  | some c ↦ c
]
