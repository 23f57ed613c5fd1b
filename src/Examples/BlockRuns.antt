-- ===== src/Examples/BlockRuns.antt =====
-- `process_block` on a small block, and the flows of a swap.
use defi_tx_indexer.Classifier.{to_lowercase}
use defi_tx_indexer.Db.Schema.{
  fits_swap_event, fits_liquidity_event, fits_block, fits_transaction, fits_token_transfer,
  fits_failed_transaction, fits_trace_log,
}
use defi_tx_indexer.Prelude.{
  ◌≡◌, refl, true, false, none, some, [], ◌∷◌, codes, text_eq, All, is_some, arith, pos, negsuc,
  neg_part, ◌+ℤ◌, ◌-ℤ◌,
}
use defi_tx_indexer.Db.Rows.{Tables}
use defi_tx_indexer.Db.Process.{process_block, writes_of}
use defi_tx_indexer.Db.Complete.{Fit, FitFailed, process_block_complete}
use defi_tx_indexer.Db.Complete.Held.{Holds}
use defi_tx_indexer.Events.{decode_log, flows}
use defi_tx_indexer.Events.Amounts.{flows_balance}
use defi_tx_indexer.Receipts.{
  add_log, add_logs, add_event, add_transaction, transaction_of, Libraries, NodeBlock, rows_of,
  gather, failed_rows, failed_tx_hashes,
}
use defi_tx_indexer.Trace.{object, member, no_members, string, parse_call_frame, flatten_call_frame}
use defi_tx_indexer.Trace.Failed.{process_failed_txs}

abbrev libs : Libraries
libs = record {
  abi = record {
    lower_other = λ c. c ∷ [];
    show_address = λ a. a ∷ [];
    swap_topic = 1;
    mint_topic = 2;
    burn_topic = 3;
    transfer_topic = 4;
    decode_raw_swap = λ topics bytes. none;
    decode_raw_mint = λ topics bytes. none;
    decode_raw_burn = λ topics bytes. none;
    decode_raw_transfer = λ topics bytes. some (record { from = 5; to = 6; value = 7 });
  };
  show_hash = λ h. h ∷ [];
  show_bytes = λ bytes. bytes;
  decode_hex = λ s. none;
  from_utf8_lossy = λ bytes. bytes;
}

-- Two transactions: one with a transfer, and one that failed.
abbrev node : NodeBlock
node = record {
  fetched = true;
  timestamp = 7;
  gas_used = 100;
  hash = codes "b";
  parent_hash = codes "a";
  transactions =
      record { from = 1; to = some 2; effective_gas_price = some 3; value = 4; input = [] }
      ∷ record { from = 1; to = none; effective_gas_price = none; value = 0; input = 9 ∷ [] }
      ∷ [];
  receipts =
      record {
        transaction_hash = 11;
        gas_used = 50;
        status = true;
        logs = record { topics = 4 ∷ []; bytes = []; address = 8; log_index = some 0 } ∷ [];
      }
      ∷ record { transaction_hash = 12; gas_used = 50; status = false; logs = [] }
      ∷ [];
  trace = λ hash. some (object (member (codes "type") (string (codes "CALL")) no_members));
}

abbrev no_rows : Tables
no_rows = record {
  blocks = [];
  transactions = [];
  swap_events = [];
  liquidity_events = [];
  token_transfers = [];
  failed_transactions = [];
  trace_logs = [];
  checkpoint = none;
}

node-decoded : is_some (rows_of libs node 1).failed ≡ true
unfolding rows_of failed_rows failed_tx_hashes process_failed_txs parse_call_frame
    flatten_call_frame text_eq
node-decoded = refl

node-Fit : Fit (rows_of libs node 1)
unfolding rows_of gather failed_rows failed_tx_hashes process_failed_txs parse_call_frame
    flatten_call_frame text_eq fits_block fits_transaction fits_token_transfer
    fits_failed_transaction fits_trace_log FitFailed to_lowercase add_log add_logs decode_log
    add_event add_transaction transaction_of fits_swap_event fits_liquidity_event
node-Fit = record {
  block = refl;
  transactions = refl;
  swap_events = refl;
  liquidity_events = refl;
  token_transfers = refl;
  failed = (refl, refl);
}

process_block_complete_example :
    ((process_block libs node 1 no_rows).1 ≡ true)
    × All (λ w. Holds w (process_block libs node 1 no_rows).0) (writes_of (rows_of libs node 1))
process_block_complete_example =
    process_block_complete libs node 1 no_rows refl (omega arith) node-decoded node-Fit

flows_balance_example :
    (neg_part (flows (negsuc 4) (pos 3)).0 ≡ 0)
    × (neg_part (flows (negsuc 4) (pos 3)).1 ≡ 0)
    × ((flows (negsuc 4) (pos 3)).0 -ℤ (flows (negsuc 4) (pos 3)).1 ≡ negsuc 4 +ℤ pos 3)
flows_balance_example = flows_balance (negsuc 4) (pos 3) (omega arith)
