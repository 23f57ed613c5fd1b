-- ===== src/Db/Schema.antt =====
-- What the columns of the tables take: the types and the CHECK constraints of
-- migrations/20240101000001_initial_schema.sql. The database refuses a statement that has a row with
-- a value outside of them, whether its key is taken or not.
use defi_tx_indexer.Prelude.{
  ℕ, Bool, true, false, not, ◌&&◌, ◌^◌, Option, none, some, [], ◌∷◌, Text, ltb, leb, ◌==◌, all,
  length, ℤ, pos, negsuc, is_natural,
}
use defi_tx_indexer.Db.Rows.{
  BigDecimal, Block, Transaction, SwapEvent, LiquidityEvent, TokenTransfer, FailedTransaction,
  TraceLog,
}

-- TEXT holds no NUL.
abbrev pub is_text : Text → Bool
is_text s = all (λ c. not (c == 0)) s

abbrev pub is_varchar : ℕ → Text → Bool
is_varchar n s = is_text s && leb (length s) n

-- A column that may be NULL.
abbrev pub nullable : (Text → Bool) → Option Text → Bool
nullable test none = true
nullable test (some s) = test s

-- The digits behind the sign.
abbrev pub digits : BigDecimal → Text
digits [] = []
digits (c ∷ s) = elim (c == b'-') [ true ↦ s | false ↦ c ∷ s ]

-- NUMERIC(precision, 0), for the text of an integer.
abbrev pub is_numeric : ℕ → BigDecimal → Bool
is_numeric precision d = leb (length (digits d)) precision

-- NUMERIC(precision, 0) with CHECK (column >= 0)
abbrev pub is_positive_numeric : ℕ → BigDecimal → Bool
is_positive_numeric precision d = is_numeric precision d && leb (length d) (length (digits d))

-- A `u64` that the worker casts to `i64`, with CHECK (column >= 0): the cast is negative from 2^63 on.
abbrev pub is_bigint : ℕ → Bool
is_bigint n = ltb n (2 ^ 63)

abbrev pub lt_integer : ℤ → ℤ → Bool
lt_integer (pos a) (pos b) = ltb a b
lt_integer (pos a) (negsuc b) = false
lt_integer (negsuc a) (pos b) = true
lt_integer (negsuc a) (negsuc b) = ltb b a

unfoldable pub fits_block : Block → Bool
fits_block b =
    is_bigint b.gas_used && nullable is_text b.block_hash && nullable is_text b.parent_hash

unfoldable pub fits_transaction : Transaction → Bool
fits_transaction x =
    is_varchar 66 x.tx_hash
    && is_varchar 42 x.from_addr
    && nullable (is_varchar 42) x.to_addr
    && is_bigint x.gas_used
    && is_numeric 30 x.gas_price
    && is_numeric 38 x.value
    && leb x.status 1
    && nullable is_text x.input_data

unfoldable pub fits_swap_event : SwapEvent → Bool
fits_swap_event s =
    is_varchar 42 s.pool_address
    && is_varchar 66 s.tx_hash
    && is_varchar 42 s.sender
    && is_varchar 42 s.recipient
    && is_numeric 38 s.amount0
    && is_numeric 38 s.amount1
    && is_numeric 38 s.amount_in
    && is_numeric 38 s.amount_out
    && is_numeric 60 s.sqrt_price_x96
    && is_numeric 38 s.liquidity

unfoldable pub fits_liquidity_event : LiquidityEvent → Bool
fits_liquidity_event l =
    is_varchar 42 l.pool_address
    && is_varchar 66 l.tx_hash
    && is_varchar 42 l.provider
    && is_numeric 38 l.token0_amount
    && is_numeric 38 l.token1_amount
    && is_numeric 38 l.liquidity
    && lt_integer l.tick_lower l.tick_upper

unfoldable pub fits_token_transfer : TokenTransfer → Bool
fits_token_transfer x =
    is_varchar 66 x.tx_hash
    && is_varchar 42 x.token_address
    && is_varchar 42 x.from_addr
    && is_varchar 42 x.to_addr
    && is_positive_numeric 38 x.amount

unfoldable pub fits_failed_transaction : FailedTransaction → Bool
fits_failed_transaction f =
    is_varchar 66 f.tx_hash
    && nullable is_text f.revert_reason
    && nullable (is_varchar 100) f.failing_function
    && is_natural f.gas_used

unfoldable pub fits_trace_log : TraceLog → Bool
fits_trace_log t =
    is_varchar 66 t.tx_hash
    && is_varchar 20 t.call_type
    && is_varchar 42 t.from_addr
    && nullable (is_varchar 42) t.to_addr
    && is_numeric 38 t.value
    && nullable is_text t.input
    && nullable is_text t.output
    && nullable is_text t.error
