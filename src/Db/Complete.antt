-- ===== src/Db/Complete.antt =====
-- The rows that `process_block` (crates/indexer/src/worker.rs) makes of a block, and what it leaves in the tables.
pub mod Held
use defi_tx_indexer.Prelude.{
  ℕ, ◌+◌, ◌≤◌, ◌≡◌, refl, ap, subst, sym, ◌∙◌, Bool, true, false, ◌&&◌, Option, none, some, List,
  [], ◌∷◌, ◌++◌, Text, text_eq, text_eq→eq, all, any, All, is_some, length, arith, ◌==◌,
  if◌then◌else◌, Option-cases, inl, inr,
}
use defi_tx_indexer.Db.{
  on_conflict_do_nothing, has_block, has_transaction, insert_blocks, insert_transactions,
  insert_swap_events, insert_liquidity_events, insert_token_transfers, insert_failed_transactions,
  insert_trace_logs, same_block, same_transaction, same_swap, same_liquidity, same_transfer,
  same_failed,
}
use defi_tx_indexer.Db.Rows.{DateTime, Tables, Transaction}
use defi_tx_indexer.Db.Schema.{
  fits_block, fits_transaction, fits_swap_event, fits_liquidity_event, fits_token_transfer,
  fits_failed_transaction, fits_trace_log,
}
use defi_tx_indexer.Db.Inserts.{all-map, on_conflict_holds}
use defi_tx_indexer.Db.Rollback.{
  Write, blocks, transactions, swap_events, liquidity_events, token_transfers, failed_transactions,
  trace_logs, perform,
}
use defi_tx_indexer.Receipts.{
  Libraries, NodeBlock, BlockRows, rows_of, failed_rows, gather, failed_tx_hashes,
}
use defi_tx_indexer.Receipts.Linked.{Known, gather-Known, failed_tx_hashes-known}
use defi_tx_indexer.Receipts.Transactions.{gather-numbers, gather-rows}
use defi_tx_indexer.Trace.Failed.{Rows}
use defi_tx_indexer.Trace.Failed.Owned.{Owned, process_failed_txs-Owned}
use defi_tx_indexer.Db.Process.{
  write_through, write_rows, process_block, writes_of, later_writes, failed_writes,
}
use defi_tx_indexer.Db.Complete.Held.{
  Holds, Grows, any_of_held, nil-Good, cons-Good, Good, done, done-Holds,
}

-- The traces and the failures fit into their columns.
unfoldable pub FitFailed : Rows → Type 0
FitFailed none = Unit
FitFailed (some (logs, failures)) =
    (all fits_trace_log logs ≡ true) × (all fits_failed_transaction failures ≡ true)

-- Every row that is made of a block fits into the columns of its table.
pub record Fit (rows : BlockRows) : Type 0 where
  pub block : fits_block rows.block ≡ true
  pub transactions : all fits_transaction rows.transactions ≡ true
  pub swap_events : all fits_swap_event rows.swap_events ≡ true
  pub liquidity_events : all fits_liquidity_event rows.liquidity_events ≡ true
  pub token_transfers : all fits_token_transfer rows.token_transfers ≡ true
  pub failed : FitFailed rows.failed

-- Whether a transaction is in the table.
abbrev present : Tables → Text → Bool
present t hash = any (λ x. text_eq x.tx_hash hash) t.transactions

-- The rows belong to transactions of the table.
record Belong (rows : BlockRows) (known : Text → Bool) : Type 0 where
  swap_events : all (λ x. known x.tx_hash) rows.swap_events ≡ true
  liquidity_events : all (λ x. known x.tx_hash) rows.liquidity_events ≡ true
  token_transfers : all (λ x. known x.tx_hash) rows.token_transfers ≡ true

OwnedBy : (Text → Bool) → Rows → Type 0
OwnedBy known none = Unit
OwnedBy known (some (logs, failures)) =
    (all (λ t. known t.tx_hash) logs ≡ true) × (all (λ f. known f.tx_hash) failures ≡ true)

failed-Good :
    (r : Rows) (t : Tables) → OwnedBy (present t) r → FitFailed r → Good (failed_writes r) t
unfolding failed_writes OwnedBy FitFailed
failed-Good none t h fit = nil-Good t
failed-Good (some (logs, failures)) t (h, k) (fit_h, fit_k) =
    let t' : Tables = done (trace_logs logs) t in
    cons-Good (trace_logs logs) (failed_transactions failures ∷ []) t
      (unfold perform insert_trace_logs has_transaction in rw (fit_h, h) refl)
      (cons-Good (failed_transactions failures) [] t'
        (unfold perform insert_failed_transactions has_transaction in rw (fit_k, k) refl)
        (nil-Good (done (failed_transactions failures) t')))

events-Good :
    (rows : BlockRows) (t : Tables)
    → Belong rows (present t)
    → OwnedBy (present t) rows.failed
    → Fit rows
    → Good
        (swap_events rows.swap_events
          ∷ liquidity_events rows.liquidity_events
          ∷ token_transfers rows.token_transfers
          ∷ failed_writes rows.failed)
        t
events-Good rows t b o fit =
    let w3 : Write = swap_events rows.swap_events in
    let w4 : Write = liquidity_events rows.liquidity_events in
    let w5 : Write = token_transfers rows.token_transfers in
    let t3 : Tables = done w3 t in
    let t4 : Tables = done w4 t3 in
    let t5 : Tables = done w5 t4 in
    cons-Good w3 _ t
      (unfold perform insert_swap_events has_transaction in
        rw (fit.swap_events, b.swap_events) refl)
      (cons-Good w4 _ t3
        (unfold perform insert_liquidity_events has_transaction in
          rw (fit.liquidity_events, b.liquidity_events) refl)
        (cons-Good w5 _ t4
          (unfold perform insert_token_transfers has_transaction in
            rw (fit.token_transfers, b.token_transfers) refl)
          (failed-Good rows.failed t5 o fit.failed)))

-- The transactions of a block whose row is there, and what belongs to them.
rows-Good :
    (rows : BlockRows) (t : Tables)
    → all (λ x. x.block_number == rows.block.block_number) rows.transactions ≡ true
    → ((known : Text → Bool)
        → ((hash : Text)
            → any (λ x. text_eq x.tx_hash hash) rows.transactions ≡ true
            → known hash ≡ true)
        → Belong rows known × OwnedBy known rows.failed)
    → Fit rows
    → Good (writes_of rows) t
unfolding writes_of later_writes
rows-Good rows t numbers belong fit =
    let w1 : Write = blocks (rows.block ∷ []) in
    let w2 : Write = transactions rows.transactions in
    let t1 : Tables = done w1 t in
    let t2 : Tables = done w2 t1 in
    let there : any (λ b. b.block_number == rows.block.block_number) t1.blocks ≡ true =
      (done-Holds w1 t).0 in
    let linked : all (λ x. any (λ b. b.block_number == x.block_number) t1.blocks) rows.transactions
        ≡ true =
      all-map _ _
        (λ x k.
          let e : rows.block.block_number ≡ x.block_number = ground arith in
          subst (λ m. any (λ b. b.block_number == m) t1.blocks ≡ true) e there)
        rows.transactions numbers in
    let found : (hash : Text)
        → any (λ x. text_eq x.tx_hash hash) rows.transactions ≡ true
        → present t2 hash ≡ true =
      λ hash k.
        any_of_held same_transaction (λ x. text_eq x.tx_hash hash)
          (λ x y same own.
            subst (λ h. text_eq h hash ≡ true) (text_eq→eq x.tx_hash y.tx_hash same) own)
          rows.transactions t2.transactions (done-Holds w2 t1) k in
    let (b, o) = belong (present t2) found in
    cons-Good w1 _ t (unfold perform insert_blocks in rw fit.block refl) (
      cons-Good w2 _ t1
        (unfold perform insert_transactions has_block in rw (fit.transactions, linked) refl)
        (events-Good rows t2 b o fit))

OwnedBy-of :
    (libs : Libraries) (time : DateTime) (known : Text → Bool) (r : Rows)
    → Owned libs.abi.lower_other libs.decode_hex libs.from_utf8_lossy time known r
    → OwnedBy known r
unfolding Owned OwnedBy
OwnedBy-of libs time known none h = tt
OwnedBy-of libs time known (some (logs, failures)) h = h

rows-Belong :
    (libs : Libraries) (node : NodeBlock) (n : ℕ)
    → length node.receipts ≤ length node.transactions
    → (known : Text → Bool)
    → ((hash : Text)
        → any (λ x. text_eq x.tx_hash hash) (rows_of libs node n).transactions ≡ true
        → known hash ≡ true)
    → Belong (rows_of libs node n) known × OwnedBy known (rows_of libs node n).failed
unfolding rows_of
rows-Belong libs node n enough known found =
    let hashes : all (λ r. known (libs.show_hash r.transaction_hash)) node.receipts ≡ true =
      all-map _ _ (λ r k. found (libs.show_hash r.transaction_hash) k) node.receipts
        (gather-rows libs node.timestamp n node.transactions 0 node.receipts (omega arith)) in
    let events : Known known (gather libs node.timestamp n node.transactions 0 node.receipts) =
      gather-Known known libs node.timestamp n node.transactions 0 node.receipts hashes in
    (
      record {
        swap_events = events.swap_events;
        liquidity_events = events.liquidity_events;
        token_transfers = events.token_transfers;
      },
      OwnedBy-of libs node.timestamp known _ (
          unfold failed_rows in
          process_failed_txs-Owned libs.abi.lower_other libs.decode_hex libs.from_utf8_lossy
            node.timestamp known node.trace (failed_tx_hashes libs node.timestamp n node.receipts)
            (failed_tx_hashes-known known libs node.timestamp n node.receipts hashes)),
    )

write_rows_complete :
    (rows : BlockRows) (t : Tables)
    → rows.fetched ≡ true
    → is_some rows.failed ≡ true
    → Good (writes_of rows) t
    → ((write_rows rows t).1 ≡ true) × All (λ w. Holds w (write_rows rows t).0) (writes_of rows)
unfolding write_rows
write_rows_complete rows t got calm g =
    let e : write_rows rows t ≡ (
      (write_through (writes_of rows) t).0,
      (write_through (writes_of rows) t).1 && is_some rows.failed,
    ) =
      rw got refl in
    subst (λ (r : Tables × Bool). (r.1 ≡ true) × All (λ w. Holds w r.0) (writes_of rows)) (sym e)
      (rw (g.through, calm) refl, g.holds)

-- When the node gives a block with a transaction for each of its receipts, the traces of the failed
-- transactions are decoded without a panic, and every row that is made of the block fits into the
-- columns of its table (the numbers have their precision, an amount of a transfer is not negative, a
-- lower tick is below its upper one, no text is too long or has a NUL), then `process_block`
-- succeeds, whatever the tables hold: no foreign key refuses a row. Afterwards the tables hold the
-- key of every row that it made: the block, its transactions, events, transfers and failures.
pub process_block_complete :
    (libs : Libraries) (node : NodeBlock) (n : ℕ) (t : Tables)
    → node.fetched ≡ true
    → length node.receipts ≤ length node.transactions
    → is_some (rows_of libs node n).failed ≡ true
    → Fit (rows_of libs node n)
    → ((process_block libs node n t).1 ≡ true)
      × All (λ w. Holds w (process_block libs node n t).0) (writes_of (rows_of libs node n))
process_block_complete libs node n t got enough calm fit =
    unfold process_block in
    write_rows_complete (rows_of libs node n) t (unfold rows_of in got) calm (
      rows-Good (rows_of libs node n) t
        (unfold rows_of in gather-numbers libs node.timestamp n node.transactions 0 node.receipts)
        (unfold rows_of in rows-Belong libs node n enough) fit)
