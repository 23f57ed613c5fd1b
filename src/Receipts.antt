-- ===== src/Receipts.antt =====
-- crates/indexer/src/worker.rs: what `process_block` makes of a block and its receipts, from the
-- answers of the node to the rows. The display of hashes, addresses and bytes is alloy's, a
-- parameter. A `BigDecimal` of a row is the text of its integer.
pub mod Linked
pub mod Transactions
use defi_tx_indexer.Prelude.{
  ℕ, zero, suc, ◌+◌, Bool, true, false, not, Option, none, some, List, [], ◌∷◌, ◌++◌, Text, codes,
  text_eq, if◌then◌else◌, get_elem?, ℤ, pos, negsuc, unwrap_or, map,
}
use defi_tx_indexer.Classifier.{to_lowercase}
use defi_tx_indexer.Db.Rows.{
  DateTime, BigDecimal, Block, Transaction, SwapEvent, LiquidityEvent, LiquidityEventType, mint,
  burn, TokenTransfer, FailedTransaction, TraceLog,
}
use defi_tx_indexer.Events.{
  Abi, DecodedSwap, DecodedLiquidity, DecodedTransfer, DecodedEvent, swap, liquidity, transfer,
  Decoding, ok, err, decode_log,
}
use defi_tx_indexer.Trace.{Json, decimal}
use defi_tx_indexer.Trace.Failed.{Rows, process_failed_txs}

pub record Log : Type 0 where
  pub topics : List ℕ
  pub bytes : List ℕ
  pub address : ℕ
  pub log_index : Option ℕ

pub record Receipt : Type 0 where
  pub transaction_hash : ℕ
  pub gas_used : ℕ
  pub status : Bool
  pub logs : List Log

-- A transaction of a block.
pub record BlockTx : Type 0 where
  pub from : ℕ
  pub to : Option ℕ
  pub effective_gas_price : Option ℕ
  pub value : ℕ
  pub input : List ℕ

-- What the node returns for a block; `fetched` is whether the requests of the block and of its
-- receipts succeeded, and `trace` is the answer to `debug_traceTransaction`, as JSON.
pub record NodeBlock : Type 0 where
  pub fetched : Bool
  pub timestamp : DateTime
  pub gas_used : ℕ
  pub hash : Text
  pub parent_hash : Text
  pub transactions : List BlockTx
  pub receipts : List Receipt
  pub trace : Text → Option Json

-- The libraries that the worker calls.
pub record Libraries : Type 0 where
  pub abi : Abi
  -- `format!("0x{:x}", hash)`, and the display of bytes
  pub show_hash : ℕ → Text
  pub show_bytes : List ℕ → Text
  pub decode_hex : Text → Option (List ℕ)
  pub from_utf8_lossy : List ℕ → Text

-- The text of an integer below 10^80.
unfoldable pub integer_text : ℤ → BigDecimal
unfolding decimal
integer_text (pos n) = decimal 80 n
integer_text (negsuc n) = b'-' ∷ decimal 80 (suc n)

unfoldable to_swap_model : DecodedSwap → SwapEvent
unfolding integer_text
to_swap_model s = record {
  pool_address = s.pool_address;
  tx_hash = s.tx_hash;
  sender = s.sender;
  recipient = s.recipient;
  amount0 = integer_text s.amount0;
  amount1 = integer_text s.amount1;
  amount_in = integer_text s.amount_in;
  amount_out = integer_text s.amount_out;
  sqrt_price_x96 = integer_text s.sqrt_price_x96;
  liquidity = integer_text s.liquidity;
  tick = s.tick;
  log_index = s.log_index;
  timestamp = s.timestamp;
}

unfoldable to_liquidity_model : DecodedLiquidity → LiquidityEvent
unfolding integer_text
to_liquidity_model l = record {
  event_type = if text_eq l.event_type (codes "BURN") then burn else mint;
  pool_address = l.pool_address;
  tx_hash = l.tx_hash;
  provider = l.provider;
  token0_amount = integer_text l.token0_amount;
  token1_amount = integer_text l.token1_amount;
  tick_lower = l.tick_lower;
  tick_upper = l.tick_upper;
  liquidity = integer_text l.liquidity;
  log_index = l.log_index;
  timestamp = l.timestamp;
}

unfoldable to_transfer_model : DecodedTransfer → TokenTransfer
unfolding integer_text
to_transfer_model t = record {
  tx_hash = t.tx_hash;
  token_address = t.token_address;
  from_addr = t.from_addr;
  to_addr = t.to_addr;
  amount = integer_text t.amount;
  log_index = t.log_index;
  timestamp = t.timestamp;
}

-- The vectors that the loop over the receipts fills.
pub record Gathered : Type 0 where
  pub transactions : List Transaction
  pub swap_events : List SwapEvent
  pub liquidity_events : List LiquidityEvent
  pub token_transfers : List TokenTransfer

abbrev pub nothing : Gathered
nothing = record {
  transactions = [];
  swap_events = [];
  liquidity_events = [];
  token_transfers = [];
}

-- The rows of one decoded log, in front; a log that does not decode adds none.
unfoldable pub add_event : Decoding → Gathered → Gathered
unfolding to_swap_model to_liquidity_model to_transfer_model
add_event (ok (swap s)) g = record g { swap_events = to_swap_model s ∷ g.swap_events }
add_event (ok (liquidity l)) g = record g {
  liquidity_events = to_liquidity_model l ∷ g.liquidity_events;
}
add_event (ok (transfer t)) g = record g {
  token_transfers = to_transfer_model t ∷ g.token_transfers;
}
add_event (err e) g = g

unfoldable pub add_transaction : Option Transaction → Gathered → Gathered
add_transaction none g = g
add_transaction (some x) g = record g { transactions = x ∷ g.transactions }

module _ (libs : Libraries) (timestamp : DateTime) (block_number : ℕ) where
  open libs use {abi, show_hash, show_bytes}

  -- A log without a topic is passed over.
  unfoldable pub add_log : Text → Log → Gathered → Gathered
  unfolding add_event
  add_log tx_hash log g = elim log.topics [
    | [] ↦ g
    | topic0 ∷ topics ↦
        add_event
          (decode_log abi (to_lowercase abi.lower_other (abi.show_address log.address)) tx_hash
            (unwrap_or log.log_index 0) timestamp (topic0 ∷ topics) log.bytes)
          g
  ]

  unfoldable pub add_logs : Text → List Log → Gathered → Gathered
  add_logs tx_hash [] g = g
  add_logs tx_hash (log ∷ logs) g = add_log tx_hash log (add_logs tx_hash logs g)

  -- The row of a receipt whose transaction is at its place in the block.
  unfoldable pub transaction_of : Receipt → Option BlockTx → Option Transaction
  unfolding integer_text
  transaction_of receipt none = none
  transaction_of receipt (some tx) = some (record {
    tx_hash = show_hash receipt.transaction_hash;
    from_addr = to_lowercase abi.lower_other (abi.show_address tx.from);
    to_addr = elim tx.to [
      | none ↦ none
      | some a ↦ some (to_lowercase abi.lower_other (abi.show_address a))
    ];
    block_number = block_number;
    gas_used = receipt.gas_used;
    gas_price = integer_text (pos (unwrap_or tx.effective_gas_price 0));
    value = integer_text (pos tx.value);
    status = if receipt.status then 1 else 0;
    input_data = elim tx.input [ [] ↦ none | b ∷ bs ↦ some (show_bytes (b ∷ bs)) ];
  })

  -- The loop over the receipts, from a place on.
  unfoldable pub gather : List BlockTx → ℕ → List Receipt → Gathered
  unfolding add_logs add_transaction transaction_of
  gather block_txs idx [] = nothing
  gather block_txs idx (receipt ∷ receipts) =
      add_transaction (transaction_of receipt (get_elem? block_txs idx)) (
        add_logs (show_hash receipt.transaction_hash) receipt.logs
          (gather block_txs (suc idx) receipts))

  -- The hashes of the receipts that failed.
  unfoldable pub failed_tx_hashes : List Receipt → List Text
  failed_tx_hashes [] = []
  failed_tx_hashes (receipt ∷ receipts) =
      if receipt.status
      then failed_tx_hashes receipts
      else show_hash receipt.transaction_hash ∷ failed_tx_hashes receipts

-- The rows of a block; those of its failed transactions are missing when their decoding panics.
pub record BlockRows : Type 0 where
  pub fetched : Bool
  pub block : Block
  pub transactions : List Transaction
  pub swap_events : List SwapEvent
  pub liquidity_events : List LiquidityEvent
  pub token_transfers : List TokenTransfer
  pub failed : Rows

unfoldable pub failed_rows : Libraries → NodeBlock → List Text → Rows
unfolding process_failed_txs
failed_rows libs node hashes =
    process_failed_txs libs.abi.lower_other libs.decode_hex libs.from_utf8_lossy node.timestamp
      (map (λ h. (h, node.trace h)) hashes)

unfoldable pub rows_of : Libraries → NodeBlock → ℕ → BlockRows
unfolding gather failed_rows failed_tx_hashes
rows_of libs node block_number =
    let g = gather libs node.timestamp block_number node.transactions 0 node.receipts in
    record {
      fetched = node.fetched;
      block = record {
        block_number = block_number;
        timestamp = node.timestamp;
        gas_used = node.gas_used;
        block_hash = some node.hash;
        parent_hash = some node.parent_hash;
      };
      transactions = g.transactions;
      swap_events = g.swap_events;
      liquidity_events = g.liquidity_events;
      token_transfers = g.token_transfers;
      failed =
          failed_rows libs node (failed_tx_hashes libs node.timestamp block_number node.receipts);
    }
