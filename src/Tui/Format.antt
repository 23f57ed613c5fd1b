-- ===== src/Tui/Format.antt =====
-- crates/tui/src/format.rs: the texts that the screens show.
pub mod Categories
pub mod Thousands
use defi_tx_indexer.Prelude.{
  ℕ, zero, suc, ◌+◌, ◌-◌, ◌*◌, ◌/◌, ◌%◌, Bool, true, false, ◌&&◌, Option, none, some, List, [], ◌∷◌,
  ◌++◌, Text, codes, text_eq, ltb, leb, ◌==◌, if◌then◌else◌, length, str_len, take, drop, ℤ, pos,
  negsuc, unsigned_abs, unwrap_or,
}
use defi_tx_indexer.Trace.{decimal}
use defi_tx_indexer.Db.Category.{match_str}

abbrev pub categories : List Text
categories =
    codes "INSUFFICIENT_BALANCE"
    ∷ codes "INSUFFICIENT_ALLOWANCE"
    ∷ codes "SLIPPAGE_EXCEEDED"
    ∷ codes "SLIPPAGE_AMOUNT_OUT"
    ∷ codes "SLIPPAGE_AMOUNT_IN"
    ∷ codes "SLIPPAGE_PRICE_IMPACT"
    ∷ codes "DEADLINE_EXPIRED"
    ∷ codes "UNAUTHORIZED"
    ∷ codes "TRANSFER_FAILED"
    ∷ codes "UNKNOWN"
    ∷ []

-- The arms of `normalize_category`; each has two literals.
abbrev normal_forms : List (Text × Text)
normal_forms =
    (codes "InsufficientBalance", codes "INSUFFICIENT_BALANCE")
    ∷ (codes "INSUFFICIENT_BALANCE", codes "INSUFFICIENT_BALANCE")
    ∷ (codes "InsufficientAllowance", codes "INSUFFICIENT_ALLOWANCE")
    ∷ (codes "INSUFFICIENT_ALLOWANCE", codes "INSUFFICIENT_ALLOWANCE")
    ∷ (codes "SlippageExceeded", codes "SLIPPAGE_EXCEEDED")
    ∷ (codes "SLIPPAGE_EXCEEDED", codes "SLIPPAGE_EXCEEDED")
    ∷ (codes "SlippageAmountOut", codes "SLIPPAGE_AMOUNT_OUT")
    ∷ (codes "SLIPPAGE_AMOUNT_OUT", codes "SLIPPAGE_AMOUNT_OUT")
    ∷ (codes "SlippageAmountIn", codes "SLIPPAGE_AMOUNT_IN")
    ∷ (codes "SLIPPAGE_AMOUNT_IN", codes "SLIPPAGE_AMOUNT_IN")
    ∷ (codes "SlippagePriceImpact", codes "SLIPPAGE_PRICE_IMPACT")
    ∷ (codes "SLIPPAGE_PRICE_IMPACT", codes "SLIPPAGE_PRICE_IMPACT")
    ∷ (codes "DeadlineExpired", codes "DEADLINE_EXPIRED")
    ∷ (codes "DEADLINE_EXPIRED", codes "DEADLINE_EXPIRED")
    ∷ (codes "Unauthorized", codes "UNAUTHORIZED")
    ∷ (codes "UNAUTHORIZED", codes "UNAUTHORIZED")
    ∷ (codes "TransferFailed", codes "TRANSFER_FAILED")
    ∷ (codes "TRANSFER_FAILED", codes "TRANSFER_FAILED")
    ∷ []

unfoldable pub normalize_category : Text → Text
unfolding match_str
normalize_category raw = unwrap_or (match_str normal_forms raw) (codes "UNKNOWN")

abbrev labels : List (Text × Text)
labels =
    (codes "INSUFFICIENT_BALANCE", codes "Insufficient balance")
    ∷ (codes "INSUFFICIENT_ALLOWANCE", codes "Insufficient allowance")
    ∷ (codes "SLIPPAGE_EXCEEDED", codes "Slippage exceeded")
    ∷ (codes "SLIPPAGE_AMOUNT_OUT", codes "Slippage (amount out)")
    ∷ (codes "SLIPPAGE_AMOUNT_IN", codes "Slippage (amount in)")
    ∷ (codes "SLIPPAGE_PRICE_IMPACT", codes "Slippage (price impact)")
    ∷ (codes "DEADLINE_EXPIRED", codes "Deadline expired")
    ∷ (codes "UNAUTHORIZED", codes "Unauthorized")
    ∷ (codes "TRANSFER_FAILED", codes "Transfer failed")
    ∷ []

unfoldable error_category_label : Text → Text
unfolding normalize_category
error_category_label raw = unwrap_or (match_str labels (normalize_category raw)) (codes "Unknown")

-- `Color::Rgb`
abbrev Color : Type 0
Color = ℕ × ℕ × ℕ

abbrev colors : List (Text × Color)
colors =
    (codes "INSUFFICIENT_BALANCE", (0xF6, 0x60, 0x61))
    ∷ (codes "INSUFFICIENT_ALLOWANCE", (0xFF, 0x89, 0x89))
    ∷ (codes "SLIPPAGE_EXCEEDED", (0xF4, 0xBD, 0x50))
    ∷ (codes "SLIPPAGE_AMOUNT_OUT", (0xFF, 0xD5, 0x80))
    ∷ (codes "SLIPPAGE_AMOUNT_IN", (0xE5, 0xA9, 0x3D))
    ∷ (codes "SLIPPAGE_PRICE_IMPACT", (0xC9, 0x92, 0x32))
    ∷ (codes "DEADLINE_EXPIRED", (0xE8, 0x89, 0x57))
    ∷ (codes "UNAUTHORIZED", (0xC9, 0x81, 0xE6))
    ∷ (codes "TRANSFER_FAILED", (0xE0, 0x6D, 0x6E))
    ∷ []

unfoldable error_category_color : Text → Color
unfolding normalize_category
error_category_color raw = unwrap_or (match_str colors (normalize_category raw)) (0x88, 0x88, 0x88)

abbrev cluster_colors : List (Text × Color)
cluster_colors =
    (codes "CUSTOM_ERROR", (0xC9, 0x81, 0xE6))
    ∷ (codes "PANIC", (0xF6, 0x60, 0x61))
    ∷ (codes "TEXT", (0xF4, 0xBD, 0x50))
    ∷ []

unfoldable cluster_kind_color : Text → Color
unfolding match_str
cluster_kind_color kind = unwrap_or (match_str cluster_colors kind) (0x88, 0x88, 0x88)

-- The loop of `group_thousands` over the digits from place `i`.
unfoldable pub group_from : ℕ → ℕ → Text → Text
group_from len i [] = []
group_from len i (b ∷ bs) =
    (if ltb 0 i && (len - i) % 3 == 0 then b',' ∷ [] else []) ++ (b ∷ group_from len (suc i) bs)

abbrev pub digits_of : ℤ → Text
digits_of n = decimal 20 (unsigned_abs n)

unfoldable pub group_thousands : ℤ → Text
unfolding group_from decimal
group_thousands (pos n) = group_from (length (digits_of (pos n))) 0 (digits_of (pos n))
group_thousands (negsuc n) =
    b'-' ∷ group_from (length (digits_of (negsuc n))) 0 (digits_of (negsuc n))

-- `truncate_hash` of an ASCII text; 8230 is the ellipsis.
unfoldable truncate_hash : Text → Text
truncate_hash s = if leb (str_len s) 12 then s else take 6 s ++ (8230 ∷ drop (str_len s - 4) s)

-- `time_ago_at` behind the parser of times, which fails with `none`; the text is that of the time,
-- and the age is in seconds, at least 0.
unfoldable pub ago : ℕ → Text
unfolding decimal
ago secs =
    if ltb secs 60
    then codes "just now"
    else if ltb (secs / 60) 60
    then decimal 20 (secs / 60) ++ codes "m ago"
    else if ltb (secs / 60 / 60) 24
    then decimal 20 (secs / 60 / 60) ++ codes "h ago"
    else if ltb (secs / 60 / 60 / 24) 30
    then decimal 20 (secs / 60 / 60 / 24) ++ codes "d ago"
    else if ltb (secs / 60 / 60 / 24 / 30) 12
    then decimal 20 (secs / 60 / 60 / 24 / 30) ++ codes "mo ago"
    else decimal 20 (secs / 60 / 60 / 24 / 30 / 12) ++ codes "y ago"

unfoldable time_ago_at : (Text → Option ℕ) → Text → ℕ → Text
unfolding ago
time_ago_at parse_from_rfc3339 iso now = elim (parse_from_rfc3339 iso) [
  | none ↦ iso
  | some then_ ↦ ago (now - then_)
]
