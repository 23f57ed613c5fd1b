-- ===== src/Examples/DbRuns.antt =====
-- crates/db/src/queries.rs: writes and rollbacks of two blocks and their transactions.
use defi_tx_indexer.Db.Schema.{fits_block, fits_trace_log}
use defi_tx_indexer.Prelude.{
  pos, ℕ, ◌≡◌, ◌≤◌, ◌<◌, refl, true, false, none, some, [], ◌∷◌, codes, all, ltb, Text, text_eq,
}
use defi_tx_indexer.Db.{
  has_block, rollback_from_block, get_last_checkpoint, insert_trace_logs, has_transaction,
  on_conflict_do_nothing, insert_blocks,
}
use defi_tx_indexer.Db.Rows.{Block, Transaction, TraceLog, Tables}
use defi_tx_indexer.Db.Integrity.{Integrity}
use defi_tx_indexer.Db.Rollback.{
  blocks, transactions, rollback, perform, perform_all, perform_all-Integrity,
}
use defi_tx_indexer.Db.Clears.{rollback_clears, rollback_again}
use defi_tx_indexer.Db.Again.{perform_again, trace_logs_again, IsIdempotent}

abbrev block_at : ℕ → Block
block_at n = record {
  block_number = n;
  timestamp = n;
  gas_used = 0;
  block_hash = none;
  parent_hash = none;
}

abbrev transaction_at : Text → ℕ → Transaction
transaction_at hash n = record {
  tx_hash = hash;
  from_addr = [];
  to_addr = none;
  block_number = n;
  gas_used = 0;
  gas_price = codes "0";
  value = codes "0";
  status = 1;
  input_data = none;
}

abbrev root_trace : TraceLog
root_trace = record {
  tx_hash = codes "t8";
  call_depth = 0;
  call_type = codes "CALL";
  from_addr = [];
  to_addr = none;
  value = codes "0";
  gas_used = pos 0;
  input = none;
  output = none;
  error = none;
}

abbrev two_blocks : Tables
two_blocks = record {
  blocks = block_at 7 ∷ block_at 8 ∷ [];
  transactions = transaction_at (codes "t7") 7 ∷ transaction_at (codes "t8") 8 ∷ [];
  swap_events = [];
  liquidity_events = [];
  token_transfers = [];
  failed_transactions = [];
  trace_logs = root_trace ∷ [];
  checkpoint = some 8;
}

two_blocks-Integrity : Integrity two_blocks
two_blocks-Integrity = record {
  transactions = unfold has_block in refl;
  swap_events = refl;
  liquidity_events = refl;
  token_transfers = refl;
  failed_transactions = refl;
  trace_logs = unfold has_transaction text_eq in refl;
}

perform_all-Integrity_example : Integrity (
    perform_all
      (rollback 8
        ∷ transactions (transaction_at (codes "t9") 9 ∷ [])
        ∷ blocks (block_at 8 ∷ [])
        ∷ [])
      two_blocks)
perform_all-Integrity_example = perform_all-Integrity _ two_blocks two_blocks-Integrity

rollback_clears_example :
    ((n : ℕ) → 8 ≤ n → has_block (rollback_from_block 8 two_blocks).0 n ≡ false)
    × ((n : ℕ) → n < 8 → has_block (rollback_from_block 8 two_blocks).0 n ≡ has_block two_blocks n)
    × (all (λ x. ltb x.block_number 8) (rollback_from_block 8 two_blocks).0.transactions ≡ true)
    × ((c : ℕ)
        → get_last_checkpoint two_blocks ≡ some c
        → get_last_checkpoint (rollback_from_block 8 two_blocks).0 ≡ some 7)
rollback_clears_example = rollback_clears 8 two_blocks

rollback_again_example :
    rollback_from_block 8 (rollback_from_block 8 two_blocks).0
    ≡ ((rollback_from_block 8 two_blocks).0, 0)
rollback_again_example = rollback_again 8 two_blocks

perform_again_example :
    perform
      (blocks (block_at 9 ∷ []))
      (record two_blocks { blocks = block_at 7 ∷ block_at 8 ∷ block_at 9 ∷ [] })
    ≡ some (record two_blocks { blocks = block_at 7 ∷ block_at 8 ∷ block_at 9 ∷ [] })
perform_again_example =
    perform_again (blocks (block_at 9 ∷ [])) two_blocks
      (record two_blocks { blocks = block_at 7 ∷ block_at 8 ∷ block_at 9 ∷ [] })
      (unfold IsIdempotent in tt)
      (unfold fits_block perform insert_blocks on_conflict_do_nothing in refl)

trace_logs_again_example :
    insert_trace_logs
      (root_trace ∷ [])
      (record two_blocks { trace_logs = root_trace ∷ root_trace ∷ [] })
    ≡ some (record two_blocks { trace_logs = root_trace ∷ root_trace ∷ root_trace ∷ [] })
trace_logs_again_example =
    trace_logs_again (root_trace ∷ []) two_blocks
      (record two_blocks { trace_logs = root_trace ∷ root_trace ∷ [] })
      (unfold fits_trace_log insert_trace_logs has_transaction text_eq in refl)
