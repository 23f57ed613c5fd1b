-- ===== src/Db/Rows.antt =====
-- crates/db/src/models.rs: the rows of the tables that the indexer writes. A `BigDecimal` is kept
-- as its text and a `DateTime` as its seconds: the database code only passes them on. The generated
-- ids of the rows are left out: no operation here reads them.
use defi_tx_indexer.Prelude.{ℕ, Option, Text, ℤ, List}
use defi_tx_indexer.Db.Category.{ErrorCategory}

abbrev pub BigDecimal : Type 0
BigDecimal = Text

abbrev pub DateTime : Type 0
DateTime = ℕ

pub record Block : Type 0 where
  pub block_number : ℕ
  pub timestamp : DateTime
  pub gas_used : ℕ
  pub block_hash : Option Text
  pub parent_hash : Option Text

pub record Transaction : Type 0 where
  pub tx_hash : Text
  pub from_addr : Text
  pub to_addr : Option Text
  pub block_number : ℕ
  pub gas_used : ℕ
  pub gas_price : BigDecimal
  pub value : BigDecimal
  pub status : ℕ
  pub input_data : Option Text

pub record SwapEvent : Type 0 where
  pub pool_address : Text
  pub tx_hash : Text
  pub sender : Text
  pub recipient : Text
  pub amount0 : BigDecimal
  pub amount1 : BigDecimal
  pub amount_in : BigDecimal
  pub amount_out : BigDecimal
  pub sqrt_price_x96 : BigDecimal
  pub liquidity : BigDecimal
  pub tick : ℤ
  pub log_index : ℕ
  pub timestamp : DateTime

pub data LiquidityEventType : Type 0 where
  mint : LiquidityEventType
  burn : LiquidityEventType

pub record LiquidityEvent : Type 0 where
  pub event_type : LiquidityEventType
  pub pool_address : Text
  pub tx_hash : Text
  pub provider : Text
  pub token0_amount : BigDecimal
  pub token1_amount : BigDecimal
  pub tick_lower : ℤ
  pub tick_upper : ℤ
  pub liquidity : BigDecimal
  pub log_index : ℕ
  pub timestamp : DateTime

pub record TokenTransfer : Type 0 where
  pub tx_hash : Text
  pub token_address : Text
  pub from_addr : Text
  pub to_addr : Text
  pub amount : BigDecimal
  pub log_index : ℕ
  pub timestamp : DateTime

pub record FailedTransaction : Type 0 where
  pub tx_hash : Text
  pub error_category : ErrorCategory
  pub revert_reason : Option Text
  pub failing_function : Option Text
  pub gas_used : ℤ
  pub timestamp : DateTime

pub record TraceLog : Type 0 where
  pub tx_hash : Text
  pub call_depth : ℕ
  pub call_type : Text
  pub from_addr : Text
  pub to_addr : Option Text
  pub value : BigDecimal
  pub gas_used : ℤ
  pub input : Option Text
  pub output : Option Text
  pub error : Option Text

pub record Tables : Type 0 where
  pub blocks : List Block
  pub transactions : List Transaction
  pub swap_events : List SwapEvent
  pub liquidity_events : List LiquidityEvent
  pub token_transfers : List TokenTransfer
  pub failed_transactions : List FailedTransaction
  pub trace_logs : List TraceLog
  -- `last_processed_block` of chain 1
  pub checkpoint : Option ℕ
