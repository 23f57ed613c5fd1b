-- ===== src/Db/Integrity.antt =====
-- The foreign keys of the tables: every write of the indexer keeps them.
use defi_tx_indexer.Prelude.{
  ◌≡◌, refl, subst, Bool, true, false, none, some, List, any, all, if◌then◌else◌, Text, text_eq,
  ◌==◌,
}
use defi_tx_indexer.Db.{
  on_conflict_do_nothing, has_block, has_transaction, insert_blocks, insert_transactions,
  insert_swap_events, insert_liquidity_events, insert_token_transfers, insert_failed_transactions,
  insert_trace_logs, same_block, same_transaction, same_swap, same_liquidity, same_transfer,
  same_failed,
}
use defi_tx_indexer.Db.Rows.{
  Block, Transaction, SwapEvent, LiquidityEvent, TokenTransfer, FailedTransaction, TraceLog, Tables,
}
use defi_tx_indexer.Db.Inserts.{all-append, all-map, any-on_conflict, all-on_conflict}

-- A transaction has its block, and what belongs to a transaction has the transaction.
pub record Integrity (t : Tables) : Type 0 where
  pub transactions : all (λ x. has_block t x.block_number) t.transactions ≡ true
  pub swap_events : all (λ x. has_transaction t x.tx_hash) t.swap_events ≡ true
  pub liquidity_events : all (λ x. has_transaction t x.tx_hash) t.liquidity_events ≡ true
  pub token_transfers : all (λ x. has_transaction t x.tx_hash) t.token_transfers ≡ true
  pub failed_transactions : all (λ x. has_transaction t x.tx_hash) t.failed_transactions ≡ true
  pub trace_logs : all (λ x. has_transaction t x.tx_hash) t.trace_logs ≡ true

-- A write that is refused, or done.
pub if-some :
    {A : Type 0} (b : Bool) (x y : A) → (if b then some x else none) ≡ some y → (b ≡ true) × (x ≡ y)
if-some true x y e = (refl, cc)
if-some false x y e = absurd cc

-- Behind two tests.
pub if-if-some :
    {A : Type 0} (b c : Bool) (x y : A)
    → (if b then (if c then some x else none) else none) ≡ some y
    → (b ≡ true) × (c ≡ true) × (x ≡ y)
if-if-some true c x y e = let (h, done) = if-some c x y e in (refl, h, done)
if-if-some false c x y e = absurd cc

pub insert_blocks-Integrity :
    (rows : List Block) (t t' : Tables)
    → insert_blocks rows t ≡ some t'
    → Integrity t
    → Integrity t'
unfolding insert_blocks has_block has_transaction
insert_blocks-Integrity rows t t' e h =
    let (_, done) = if-some _ _ t' e in
    subst Integrity done (record {
      transactions =
          all-map _ _
            (λ x b.
              any-on_conflict same_block (λ y. y.block_number == x.block_number) t.blocks rows b)
            t.transactions h.transactions;
      swap_events = h.swap_events;
      liquidity_events = h.liquidity_events;
      token_transfers = h.token_transfers;
      failed_transactions = h.failed_transactions;
      trace_logs = h.trace_logs;
    })

pub insert_transactions-Integrity :
    (rows : List Transaction) (t t' : Tables)
    → insert_transactions rows t ≡ some t'
    → Integrity t
    → Integrity t'
unfolding insert_transactions has_block has_transaction
insert_transactions-Integrity rows t t' e h =
    let (_, linked, done) = if-if-some _ _ _ t' e in
    let more : (hash : Text)
        → has_transaction t hash ≡ true
        → any (λ y. text_eq y.tx_hash hash)
            (on_conflict_do_nothing same_transaction t.transactions rows)
          ≡ true =
      λ hash b.
        any-on_conflict same_transaction (λ y. text_eq y.tx_hash hash) t.transactions rows b in
    subst Integrity done (record {
      transactions =
          all-on_conflict same_transaction (λ x. has_block t x.block_number) t.transactions rows
            h.transactions linked;
      swap_events = all-map _ _ (λ x b. more x.tx_hash b) t.swap_events h.swap_events;
      liquidity_events =
          all-map _ _ (λ x b. more x.tx_hash b) t.liquidity_events h.liquidity_events;
      token_transfers = all-map _ _ (λ x b. more x.tx_hash b) t.token_transfers h.token_transfers;
      failed_transactions =
          all-map _ _ (λ x b. more x.tx_hash b) t.failed_transactions h.failed_transactions;
      trace_logs = all-map _ _ (λ x b. more x.tx_hash b) t.trace_logs h.trace_logs;
    })

pub insert_swap_events-Integrity :
    (rows : List SwapEvent) (t t' : Tables)
    → insert_swap_events rows t ≡ some t'
    → Integrity t
    → Integrity t'
unfolding insert_swap_events has_block has_transaction
insert_swap_events-Integrity rows t t' e h =
    let (_, linked, done) = if-if-some _ _ _ t' e in
    subst Integrity done (record {
      transactions = h.transactions;
      swap_events =
          all-on_conflict same_swap (λ x. has_transaction t x.tx_hash) t.swap_events rows
            h.swap_events linked;
      liquidity_events = h.liquidity_events;
      token_transfers = h.token_transfers;
      failed_transactions = h.failed_transactions;
      trace_logs = h.trace_logs;
    })

pub insert_liquidity_events-Integrity :
    (rows : List LiquidityEvent) (t t' : Tables)
    → insert_liquidity_events rows t ≡ some t'
    → Integrity t
    → Integrity t'
unfolding insert_liquidity_events has_block has_transaction
insert_liquidity_events-Integrity rows t t' e h =
    let (_, linked, done) = if-if-some _ _ _ t' e in
    subst Integrity done (record {
      transactions = h.transactions;
      swap_events = h.swap_events;
      liquidity_events =
          all-on_conflict same_liquidity (λ x. has_transaction t x.tx_hash) t.liquidity_events rows
            h.liquidity_events linked;
      token_transfers = h.token_transfers;
      failed_transactions = h.failed_transactions;
      trace_logs = h.trace_logs;
    })

pub insert_token_transfers-Integrity :
    (rows : List TokenTransfer) (t t' : Tables)
    → insert_token_transfers rows t ≡ some t'
    → Integrity t
    → Integrity t'
unfolding insert_token_transfers has_block has_transaction
insert_token_transfers-Integrity rows t t' e h =
    let (_, linked, done) = if-if-some _ _ _ t' e in
    subst Integrity done (record {
      transactions = h.transactions;
      swap_events = h.swap_events;
      liquidity_events = h.liquidity_events;
      token_transfers =
          all-on_conflict same_transfer (λ x. has_transaction t x.tx_hash) t.token_transfers rows
            h.token_transfers linked;
      failed_transactions = h.failed_transactions;
      trace_logs = h.trace_logs;
    })

pub insert_failed_transactions-Integrity :
    (rows : List FailedTransaction) (t t' : Tables)
    → insert_failed_transactions rows t ≡ some t'
    → Integrity t
    → Integrity t'
unfolding insert_failed_transactions has_block has_transaction
insert_failed_transactions-Integrity rows t t' e h =
    let (_, linked, done) = if-if-some _ _ _ t' e in
    subst Integrity done (record {
      transactions = h.transactions;
      swap_events = h.swap_events;
      liquidity_events = h.liquidity_events;
      token_transfers = h.token_transfers;
      failed_transactions =
          all-on_conflict same_failed (λ x. has_transaction t x.tx_hash) t.failed_transactions rows
            h.failed_transactions linked;
      trace_logs = h.trace_logs;
    })

pub insert_trace_logs-Integrity :
    (rows : List TraceLog) (t t' : Tables)
    → insert_trace_logs rows t ≡ some t'
    → Integrity t
    → Integrity t'
unfolding insert_trace_logs has_block has_transaction
insert_trace_logs-Integrity rows t t' e h =
    let (_, linked, done) = if-if-some _ _ _ t' e in
    subst Integrity done (record {
      transactions = h.transactions;
      swap_events = h.swap_events;
      liquidity_events = h.liquidity_events;
      token_transfers = h.token_transfers;
      failed_transactions = h.failed_transactions;
      trace_logs =
          all-append (λ x. has_transaction t x.tx_hash) t.trace_logs rows h.trace_logs linked;
    })
