-- ===== src/Db/Again.antt =====
-- crates/db/src/queries.rs: a write that is done twice, as by a block that is processed again.
use defi_tx_indexer.Prelude.{
  ℕ, ◌≡◌, refl, subst, ap, true, ◌&&◌, some, List, ◌++◌, append_assoc, arith, Text, text_eq,
  text_eq_refl, ◌==◌,
}
use defi_tx_indexer.Db.{
  has_block, has_transaction, rollback_from_block, insert_blocks, insert_transactions,
  insert_swap_events, insert_liquidity_events, insert_token_transfers, insert_failed_transactions,
  insert_trace_logs, update_checkpoint, same_block, same_transaction, same_swap, same_liquidity,
  same_transfer, same_failed,
}
use defi_tx_indexer.Db.Rows.{
  Block, Transaction, SwapEvent, LiquidityEvent, TokenTransfer, FailedTransaction, TraceLog, Tables,
}
use defi_tx_indexer.Db.Inserts.{on_conflict_again}
use defi_tx_indexer.Db.Integrity.{if-some, if-if-some}
use defi_tx_indexer.Db.Rollback.{
  Write, blocks, transactions, swap_events, liquidity_events, token_transfers, failed_transactions,
  trace_logs, checkpoint, rollback, perform,
}
use defi_tx_indexer.Db.Clears.{rollback_again}

-- The writes other than the insert of traces.
unfoldable pub IsIdempotent : Write → Type 0
IsIdempotent (trace_logs rows) = ⊥
IsIdempotent _ = Unit

same_event_refl : (hash : Text) (n : ℕ) → (text_eq hash hash && (n == n)) ≡ true
same_event_refl hash n = ground (arith, text_eq_refl hash)

insert_blocks_again :
    (rows : List Block) (t t' : Tables)
    → insert_blocks rows t ≡ some t'
    → insert_blocks rows t' ≡ some t'
unfolding insert_blocks
insert_blocks_again rows t t' e =
    let (fits, done) = if-some _ _ t' e in
    subst (λ u. insert_blocks rows u ≡ some u) done
      (rw (fits, on_conflict_again same_block (λ x. ground arith) t.blocks rows) refl)

insert_transactions_again :
    (rows : List Transaction) (t t' : Tables)
    → insert_transactions rows t ≡ some t'
    → insert_transactions rows t' ≡ some t'
unfolding insert_transactions has_block has_transaction
insert_transactions_again rows t t' e =
    let (fits, linked, done) = if-if-some _ _ _ t' e in
    subst (λ u. insert_transactions rows u ≡ some u) done
      (rw
        (
          fits,
          linked,
          on_conflict_again same_transaction (λ x. text_eq_refl x.tx_hash) t.transactions rows,
        )
        refl)

insert_swap_events_again :
    (rows : List SwapEvent) (t t' : Tables)
    → insert_swap_events rows t ≡ some t'
    → insert_swap_events rows t' ≡ some t'
unfolding insert_swap_events has_block has_transaction
insert_swap_events_again rows t t' e =
    let (fits, linked, done) = if-if-some _ _ _ t' e in
    subst (λ u. insert_swap_events rows u ≡ some u) done
      (rw
        (
          fits,
          linked,
          on_conflict_again same_swap (λ x. same_event_refl x.tx_hash x.log_index) t.swap_events
              rows,
        )
        refl)

insert_liquidity_events_again :
    (rows : List LiquidityEvent) (t t' : Tables)
    → insert_liquidity_events rows t ≡ some t'
    → insert_liquidity_events rows t' ≡ some t'
unfolding insert_liquidity_events has_block has_transaction
insert_liquidity_events_again rows t t' e =
    let (fits, linked, done) = if-if-some _ _ _ t' e in
    subst (λ u. insert_liquidity_events rows u ≡ some u) done
      (rw
        (
          fits,
          linked,
          on_conflict_again same_liquidity (λ x. same_event_refl x.tx_hash x.log_index)
              t.liquidity_events rows,
        )
        refl)

insert_token_transfers_again :
    (rows : List TokenTransfer) (t t' : Tables)
    → insert_token_transfers rows t ≡ some t'
    → insert_token_transfers rows t' ≡ some t'
unfolding insert_token_transfers has_block has_transaction
insert_token_transfers_again rows t t' e =
    let (fits, linked, done) = if-if-some _ _ _ t' e in
    subst (λ u. insert_token_transfers rows u ≡ some u) done
      (rw
        (
          fits,
          linked,
          on_conflict_again same_transfer (λ x. same_event_refl x.tx_hash x.log_index)
              t.token_transfers rows,
        )
        refl)

insert_failed_transactions_again :
    (rows : List FailedTransaction) (t t' : Tables)
    → insert_failed_transactions rows t ≡ some t'
    → insert_failed_transactions rows t' ≡ some t'
unfolding insert_failed_transactions has_block has_transaction
insert_failed_transactions_again rows t t' e =
    let (fits, linked, done) = if-if-some _ _ _ t' e in
    subst (λ u. insert_failed_transactions rows u ≡ some u) done
      (rw
        (
          fits,
          linked,
          on_conflict_again same_failed (λ x. text_eq_refl x.tx_hash) t.failed_transactions rows,
        )
        refl)

-- A write other than the insert of traces that is done is done again with no effect.
pub perform_again :
    (w : Write) (t t' : Tables) → IsIdempotent w → perform w t ≡ some t' → perform w t' ≡ some t'
unfolding perform IsIdempotent
perform_again (blocks rows) t t' i e = insert_blocks_again rows t t' e
perform_again (transactions rows) t t' i e = insert_transactions_again rows t t' e
perform_again (swap_events rows) t t' i e = insert_swap_events_again rows t t' e
perform_again (liquidity_events rows) t t' i e = insert_liquidity_events_again rows t t' e
perform_again (token_transfers rows) t t' i e = insert_token_transfers_again rows t t' e
perform_again (failed_transactions rows) t t' i e = insert_failed_transactions_again rows t t' e
perform_again (trace_logs rows) t t' i e = absurd i
perform_again (checkpoint n) t t' i e =
    let done : update_checkpoint n t ≡ t' = cc in
    subst (λ u. some (update_checkpoint n u) ≡ some u) done (unfold update_checkpoint in refl)
perform_again (rollback n) t t' i e =
    let done : (rollback_from_block n t).0 ≡ t' = cc in
    subst (λ u. some (rollback_from_block n u).0 ≡ some u) done
      (ap (λ r. some r.0) (rollback_again n t))

-- The traces of a transaction that are inserted twice are in the table twice.
pub trace_logs_again :
    (rows : List TraceLog) (t t' : Tables)
    → insert_trace_logs rows t ≡ some t'
    → insert_trace_logs rows t' ≡ some (record t { trace_logs = t.trace_logs ++ (rows ++ rows) })
unfolding insert_trace_logs has_transaction
trace_logs_again rows t t' e =
    let (fits, linked, done) = if-if-some _ _ _ t' e in
    subst
      (λ u.
        insert_trace_logs rows u ≡ some (record t { trace_logs = t.trace_logs ++ (rows ++ rows) }))
      done (rw (fits, linked, append_assoc t.trace_logs rows rows) refl)
