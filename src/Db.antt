-- ===== src/Db.antt =====
-- crates/db/src/queries.rs: the writes of the indexer. An insert is the statement's meaning: the
-- columns' types and constraints and the foreign keys are checked, and a row whose key is taken is
-- passed over.
pub mod Category
pub mod Rows
pub mod Schema
pub mod Inserts
pub mod Integrity
pub mod Rollback
pub mod Clears
pub mod Again
pub mod Process
pub mod Laws
pub mod Complete
use defi_tx_indexer.Prelude.{
  ℕ, ◌+◌, ◌-◌, Bool, false, not, ◌&&◌, ◌||◌, Option, none, some, List, [], ◌∷◌, ◌++◌, Text, text_eq,
  leb, ◌==◌, if◌then◌else◌, any, all, length, take,
}
use defi_tx_indexer.Db.Rows.{
  Block, Transaction, SwapEvent, LiquidityEvent, TokenTransfer, FailedTransaction, TraceLog, Tables,
}
use defi_tx_indexer.Db.Schema.{
  fits_block, fits_transaction, fits_swap_event, fits_liquidity_event, fits_token_transfer,
  fits_failed_transaction, fits_trace_log,
}

-- `INSERT … ON CONFLICT (key) DO NOTHING`: `same` compares the keys of two rows.
unfoldable pub on_conflict_do_nothing {ℓ} : {A : Type ℓ} → (A → A → Bool) → List A → List A → List A
on_conflict_do_nothing same table [] = table
on_conflict_do_nothing same table (row ∷ rows) =
    let extended = on_conflict_do_nothing same (table ++ (row ∷ [])) rows in
    let kept = on_conflict_do_nothing same table rows in
    if any (same row) table then kept else extended

-- `DELETE … WHERE test`
unfoldable pub delete_where {ℓ} : {A : Type ℓ} → (A → Bool) → List A → List A
delete_where test [] = []
delete_where test (row ∷ rows) =
    let rest = delete_where test rows in if test row then rest else row ∷ rest

-- The keys of the tables.
abbrev pub same_block : Block → Block → Bool
same_block a b = b.block_number == a.block_number

abbrev pub same_transaction : Transaction → Transaction → Bool
same_transaction a b = text_eq a.tx_hash b.tx_hash

abbrev pub same_swap : SwapEvent → SwapEvent → Bool
same_swap a b = text_eq a.tx_hash b.tx_hash && (a.log_index == b.log_index)

abbrev pub same_liquidity : LiquidityEvent → LiquidityEvent → Bool
same_liquidity a b = text_eq a.tx_hash b.tx_hash && (a.log_index == b.log_index)

abbrev pub same_transfer : TokenTransfer → TokenTransfer → Bool
same_transfer a b = text_eq a.tx_hash b.tx_hash && (a.log_index == b.log_index)

abbrev pub same_failed : FailedTransaction → FailedTransaction → Bool
same_failed a b = text_eq a.tx_hash b.tx_hash

-- The foreign keys: `block_number` of a transaction, and `tx_hash` of what belongs to one.
unfoldable pub has_block : Tables → ℕ → Bool
has_block t n = any (λ b. b.block_number == n) t.blocks

unfoldable pub has_transaction : Tables → Text → Bool
has_transaction t hash = any (λ x. text_eq x.tx_hash hash) t.transactions

unfoldable pub insert_blocks : List Block → Tables → Option Tables
unfolding on_conflict_do_nothing
insert_blocks rows t =
    if all fits_block rows
    then some (record t { blocks = on_conflict_do_nothing same_block t.blocks rows })
    else none

unfoldable pub insert_transactions : List Transaction → Tables → Option Tables
unfolding on_conflict_do_nothing has_block
insert_transactions rows t =
    if all fits_transaction rows
    then (if all (λ x. has_block t x.block_number) rows
        then some (record t {
          transactions = on_conflict_do_nothing same_transaction t.transactions rows;
        })
        else none)
    else none

unfoldable pub insert_swap_events : List SwapEvent → Tables → Option Tables
unfolding on_conflict_do_nothing has_transaction
insert_swap_events rows t =
    if all fits_swap_event rows
    then (if all (λ x. has_transaction t x.tx_hash) rows
        then some (record t { swap_events = on_conflict_do_nothing same_swap t.swap_events rows })
        else none)
    else none

unfoldable pub insert_liquidity_events : List LiquidityEvent → Tables → Option Tables
unfolding on_conflict_do_nothing has_transaction
insert_liquidity_events rows t =
    if all fits_liquidity_event rows
    then (if all (λ x. has_transaction t x.tx_hash) rows
        then some (record t {
          liquidity_events = on_conflict_do_nothing same_liquidity t.liquidity_events rows;
        })
        else none)
    else none

unfoldable pub insert_token_transfers : List TokenTransfer → Tables → Option Tables
unfolding on_conflict_do_nothing has_transaction
insert_token_transfers rows t =
    if all fits_token_transfer rows
    then (if all (λ x. has_transaction t x.tx_hash) rows
        then some (record t {
          token_transfers = on_conflict_do_nothing same_transfer t.token_transfers rows;
        })
        else none)
    else none

unfoldable pub insert_failed_transactions : List FailedTransaction → Tables → Option Tables
unfolding on_conflict_do_nothing has_transaction
insert_failed_transactions rows t =
    if all fits_failed_transaction rows
    then (if all (λ x. has_transaction t x.tx_hash) rows
        then some (record t {
          failed_transactions = on_conflict_do_nothing same_failed t.failed_transactions rows;
        })
        else none)
    else none

-- A trace row has no key of its own: it is always added.
unfoldable pub insert_trace_logs : List TraceLog → Tables → Option Tables
unfolding has_transaction
insert_trace_logs rows t =
    if all fits_trace_log rows
    then (if all (λ x. has_transaction t x.tx_hash) rows
        then some (record t { trace_logs = t.trace_logs ++ rows })
        else none)
    else none

unfoldable pub get_last_checkpoint : Tables → Option ℕ
get_last_checkpoint t = t.checkpoint

unfoldable pub update_checkpoint : ℕ → Tables → Tables
update_checkpoint n t = record t { checkpoint = some n }

-- `tx_hash IN (SELECT tx_hash FROM transaction WHERE block_number >= from_block)`
unfoldable pub in_orphans : List Transaction → ℕ → Text → Bool
in_orphans [] from_block hash = false
in_orphans (x ∷ xs) from_block hash =
    (leb from_block x.block_number && text_eq x.tx_hash hash) || in_orphans xs from_block hash

-- `UPDATE indexer_checkpoint SET last_processed_block = (from_block - 1).max(0)`
unfoldable pub rewind_checkpoint : ℕ → Option ℕ → Option ℕ
rewind_checkpoint from_block none = none
rewind_checkpoint from_block (some c) = some (from_block - 1)

-- `rollback_from_block`: the tables, and the number of block rows that were deleted. The update of
-- the checkpoint has no effect where the row is missing.
unfoldable pub rollback_from_block : ℕ → Tables → Tables × ℕ
unfolding in_orphans delete_where rewind_checkpoint
rollback_from_block from_block t =
    let orphan : Text → Bool = in_orphans t.transactions from_block in
    (
      record {
        blocks = delete_where (λ b. leb from_block b.block_number) t.blocks;
        transactions = delete_where (λ x. leb from_block x.block_number) t.transactions;
        swap_events = delete_where (λ x. orphan x.tx_hash) t.swap_events;
        liquidity_events = delete_where (λ x. orphan x.tx_hash) t.liquidity_events;
        token_transfers = delete_where (λ x. orphan x.tx_hash) t.token_transfers;
        failed_transactions = delete_where (λ x. orphan x.tx_hash) t.failed_transactions;
        trace_logs = delete_where (λ x. orphan x.tx_hash) t.trace_logs;
        checkpoint = rewind_checkpoint from_block t.checkpoint;
      },
      length t.blocks - length (delete_where (λ b. leb from_block b.block_number) t.blocks),
    )
