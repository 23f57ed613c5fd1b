-- ===== src/Db/Process.antt =====
-- crates/indexer/src/worker.rs: the writes of `process_block`, in their order, and
-- crates/db/src/queries.rs: `recent_block_hashes`.
use defi_tx_indexer.Prelude.{
  ℕ, ◌≡◌, Bool, true, false, none, some, List, [], ◌∷◌, ◌++◌, ◌&&◌, is_some, leb, if◌then◌else◌,
  take,
}
use defi_tx_indexer.Reorg.{LocalBlock}
use defi_tx_indexer.Follow.BlockStore.{BlockStore}
use defi_tx_indexer.Db.{has_block, rollback_from_block, get_last_checkpoint, update_checkpoint}
use defi_tx_indexer.Db.Rows.{Block, Tables}
use defi_tx_indexer.Receipts.{Libraries, NodeBlock, BlockRows, rows_of}
use defi_tx_indexer.Trace.Failed.{Rows}
use defi_tx_indexer.Db.Rollback.{
  Write, blocks, transactions, swap_events, liquidity_events, token_transfers, failed_transactions,
  trace_logs, perform,
}

-- One write after the other, up to the first that is refused.
unfoldable pub write_through : List Write → Tables → Tables × Bool
unfolding perform
write_through [] t = (t, true)
write_through (w ∷ ws) t = elim (perform w t) [ none ↦ (t, false) | some t' ↦ write_through ws t' ]

-- The writes in front of the traces, behind that of the block row.
unfoldable pub later_writes : BlockRows → List Write
later_writes rows =
    transactions rows.transactions
    ∷ swap_events rows.swap_events
    ∷ liquidity_events rows.liquidity_events
    ∷ token_transfers rows.token_transfers
    ∷ []

-- The writes behind the traces, if these were decoded.
unfoldable pub failed_writes : Rows → List Write
failed_writes none = []
failed_writes (some (logs, failures)) = trace_logs logs ∷ failed_transactions failures ∷ []

unfoldable pub writes_of : BlockRows → List Write
unfolding later_writes failed_writes
writes_of rows = blocks (rows.block ∷ []) ∷ (later_writes rows ++ failed_writes rows.failed)

-- Nothing is written for a block that was not fetched; a panic of the decoder ends the run as an
-- error does.
unfoldable pub write_rows : BlockRows → Tables → Tables × Bool
unfolding write_through writes_of
write_rows rows t =
    if rows.fetched
    then (
      (write_through (writes_of rows) t).0,
      (write_through (writes_of rows) t).1 && is_some rows.failed,
    )
    else (t, false)

unfoldable pub process_block : Libraries → NodeBlock → ℕ → Tables → Tables × Bool
unfolding write_rows rows_of
process_block libs node block_number t = write_rows (rows_of libs node block_number) t

-- The rows by descending height.
unfoldable pub insert_desc : LocalBlock → List LocalBlock → List LocalBlock
insert_desc b [] = b ∷ []
insert_desc b (c ∷ cs) =
    let rest = insert_desc b cs in if leb c.height b.height then b ∷ c ∷ cs else c ∷ rest

-- `WHERE block_hash IS NOT NULL ORDER BY block_number DESC`
unfoldable pub hashed_desc : List Block → List LocalBlock
unfolding insert_desc
hashed_desc [] = []
hashed_desc (b ∷ bs) = elim b.block_hash [
  | none ↦ hashed_desc bs
  | some hash ↦ insert_desc (record { height = b.block_number; hash = hash }) (hashed_desc bs)
]

unfoldable pub recent_block_hashes : Tables → ℕ → List LocalBlock
unfolding hashed_desc
recent_block_hashes t limit = take limit (hashed_desc t.blocks)

-- The database as the store of the follow loop; a block is in the tables when its row is.
abbrev pub database : Libraries → BlockStore
database libs = record {
  State = Tables;
  Feed = NodeBlock;
  Done = λ t n. has_block t n ≡ true;
  checkpoint = get_last_checkpoint;
  set_checkpoint = λ t n. update_checkpoint n t;
  recent = recent_block_hashes;
  rollback = λ t f. (rollback_from_block f t).0;
  rolled = λ t f. (rollback_from_block f t).1;
  process_block = process_block libs;
}
