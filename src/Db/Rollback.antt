-- ===== src/Db/Rollback.antt =====
-- crates/db/src/queries.rs: `rollback_from_block`, and any sequence of the writes of the indexer.
use defi_tx_indexer.Prelude.{
  ℕ, ◌<◌, ◌≡◌, refl, subst, true, false, Option, none, some, List, [], ◌∷◌, arith, any,
  Option-cases, inl, inr, Text, text_eq, leb, ◌==◌,
}
use defi_tx_indexer.Db.{
  delete_where, has_block, has_transaction, in_orphans, rollback_from_block, insert_blocks,
  insert_transactions, insert_swap_events, insert_liquidity_events, insert_token_transfers,
  insert_failed_transactions, insert_trace_logs, update_checkpoint,
}
use defi_tx_indexer.Db.Rows.{
  Block, Transaction, SwapEvent, LiquidityEvent, TokenTransfer, FailedTransaction, TraceLog, Tables,
}
use defi_tx_indexer.Db.Inserts.{all-delete_where}
use defi_tx_indexer.Db.Integrity.{
  Integrity, insert_blocks-Integrity, insert_transactions-Integrity, insert_swap_events-Integrity,
  insert_liquidity_events-Integrity, insert_token_transfers-Integrity,
  insert_failed_transactions-Integrity, insert_trace_logs-Integrity,
}

-- A block below the rollback is still there.
any_block-kept :
    (from_block n : ℕ) (bs : List Block)
    → n < from_block
    → any (λ b. b.block_number == n) bs ≡ true
    → any (λ b. b.block_number == n) (delete_where (λ b. leb from_block b.block_number) bs) ≡ true
unfolding delete_where
any_block-kept from_block n [] below h = cc
any_block-kept from_block n (b ∷ bs) below h = ground (arith, any_block-kept from_block n bs below)

-- A transaction that is not orphaned is still there.
any_transaction-kept :
    (from_block : ℕ) (hash : Text) (xs : List Transaction)
    → any (λ x. text_eq x.tx_hash hash) xs ≡ true
    → in_orphans xs from_block hash ≡ false
    → any (λ x. text_eq x.tx_hash hash) (delete_where (λ x. leb from_block x.block_number) xs)
      ≡ true
unfolding delete_where in_orphans
any_transaction-kept from_block hash [] h k = cc
any_transaction-kept from_block hash (x ∷ xs) h k =
    ground (arith, any_transaction-kept from_block hash xs)

-- The transactions that are left are below the rollback.
pub in_orphans-left :
    (from_block : ℕ) (hash : Text) (xs : List Transaction)
    → in_orphans (delete_where (λ x. leb from_block x.block_number) xs) from_block hash ≡ false
unfolding delete_where in_orphans
in_orphans-left from_block hash [] = refl
in_orphans-left from_block hash (x ∷ xs) = ground (arith, in_orphans-left from_block hash xs)

-- A rollback keeps the foreign keys.
rollback-Integrity :
    (from_block : ℕ) (t : Tables) → Integrity t → Integrity (rollback_from_block from_block t).0
unfolding rollback_from_block has_block has_transaction
rollback-Integrity from_block t h = record {
  transactions =
      all-delete_where _ _ _
        (λ x b below. any_block-kept from_block x.block_number t.blocks (ground arith) b)
        t.transactions h.transactions;
  swap_events =
      all-delete_where _ _ _ (λ x b k. any_transaction-kept from_block x.tx_hash t.transactions b k)
        t.swap_events h.swap_events;
  liquidity_events =
      all-delete_where _ _ _ (λ x b k. any_transaction-kept from_block x.tx_hash t.transactions b k)
        t.liquidity_events h.liquidity_events;
  token_transfers =
      all-delete_where _ _ _ (λ x b k. any_transaction-kept from_block x.tx_hash t.transactions b k)
        t.token_transfers h.token_transfers;
  failed_transactions =
      all-delete_where _ _ _ (λ x b k. any_transaction-kept from_block x.tx_hash t.transactions b k)
        t.failed_transactions h.failed_transactions;
  trace_logs =
      all-delete_where _ _ _ (λ x b k. any_transaction-kept from_block x.tx_hash t.transactions b k)
        t.trace_logs h.trace_logs;
}

-- A write of the indexer.
pub data Write : Type 0 where
  blocks : List Block → Write
  transactions : List Transaction → Write
  swap_events : List SwapEvent → Write
  liquidity_events : List LiquidityEvent → Write
  token_transfers : List TokenTransfer → Write
  failed_transactions : List FailedTransaction → Write
  trace_logs : List TraceLog → Write
  checkpoint : ℕ → Write
  rollback : ℕ → Write

unfoldable pub perform : Write → Tables → Option Tables
perform (blocks rows) t = insert_blocks rows t
perform (transactions rows) t = insert_transactions rows t
perform (swap_events rows) t = insert_swap_events rows t
perform (liquidity_events rows) t = insert_liquidity_events rows t
perform (token_transfers rows) t = insert_token_transfers rows t
perform (failed_transactions rows) t = insert_failed_transactions rows t
perform (trace_logs rows) t = insert_trace_logs rows t
perform (checkpoint n) t = some (update_checkpoint n t)
perform (rollback n) t = some (rollback_from_block n t).0

-- A write that is refused leaves the tables as they are.
unfoldable pub perform_all : List Write → Tables → Tables
unfolding perform
perform_all [] t = t
perform_all (w ∷ ws) t = perform_all ws (elim (perform w t) [ none ↦ t | some t' ↦ t' ])

update_checkpoint-Integrity : (n : ℕ) (t : Tables) → Integrity t → Integrity (update_checkpoint n t)
unfolding update_checkpoint has_block has_transaction
update_checkpoint-Integrity n t h = record {
  transactions = h.transactions;
  swap_events = h.swap_events;
  liquidity_events = h.liquidity_events;
  token_transfers = h.token_transfers;
  failed_transactions = h.failed_transactions;
  trace_logs = h.trace_logs;
}

perform-Integrity : (w : Write) (t t' : Tables) → perform w t ≡ some t' → Integrity t → Integrity t'
unfolding perform
perform-Integrity (blocks rows) t t' e h = insert_blocks-Integrity rows t t' e h
perform-Integrity (transactions rows) t t' e h = insert_transactions-Integrity rows t t' e h
perform-Integrity (swap_events rows) t t' e h = insert_swap_events-Integrity rows t t' e h
perform-Integrity (liquidity_events rows) t t' e h = insert_liquidity_events-Integrity rows t t' e h
perform-Integrity (token_transfers rows) t t' e h = insert_token_transfers-Integrity rows t t' e h
perform-Integrity (failed_transactions rows) t t' e h =
    insert_failed_transactions-Integrity rows t t' e h
perform-Integrity (trace_logs rows) t t' e h = insert_trace_logs-Integrity rows t t' e h
perform-Integrity (checkpoint n) t t' e h =
    let done : update_checkpoint n t ≡ t' = cc in
    subst Integrity done (update_checkpoint-Integrity n t h)
perform-Integrity (rollback n) t t' e h =
    let done : (rollback_from_block n t).0 ≡ t' = cc in
    subst Integrity done (rollback-Integrity n t h)

-- Every sequence of writes keeps the foreign keys, refused ones among them: a transaction has its
-- block, and an event, a failure and a trace have their transaction, if it was so before.
pub perform_all-Integrity :
    (ws : List Write) (t : Tables) → Integrity t → Integrity (perform_all ws t)
unfolding perform_all
perform_all-Integrity [] t h = h
perform_all-Integrity (w ∷ ws) t h = elim (Option-cases (perform w t)) [
  | inl refused ↦ rw refused (perform_all-Integrity ws t h)
  | inr (t', done) ↦ rw done (perform_all-Integrity ws t' (perform-Integrity w t t' done h))
]
