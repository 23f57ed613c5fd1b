-- ===== src/Db/Clears.antt =====
-- crates/db/src/queries.rs: what `rollback_from_block` takes away, and what it leaves.
use defi_tx_indexer.Prelude.{
  ℕ, ◌-◌, ◌<◌, ◌≤◌, ◌≡◌, refl, true, false, Option, none, some, List, [], ◌∷◌, arith, any, all,
  Text, leb, ltb, ◌==◌,
}
use defi_tx_indexer.Db.{
  delete_where, has_block, in_orphans, rollback_from_block, rewind_checkpoint, get_last_checkpoint,
}
use defi_tx_indexer.Db.Rows.{Block, Transaction, Tables}
use defi_tx_indexer.Db.Inserts.{delete_where_none, delete_where_again}
use defi_tx_indexer.Db.Rollback.{in_orphans-left}

no_block-left :
    (from_block n : ℕ) (bs : List Block)
    → from_block ≤ n
    → any (λ b. b.block_number == n) (delete_where (λ b. leb from_block b.block_number) bs) ≡ false
unfolding delete_where
no_block-left from_block n [] h = refl
no_block-left from_block n (b ∷ bs) h = ground (arith, no_block-left from_block n bs)

block-left :
    (from_block n : ℕ) (bs : List Block)
    → n < from_block
    → any (λ b. b.block_number == n) (delete_where (λ b. leb from_block b.block_number) bs)
      ≡ any (λ b. b.block_number == n) bs
unfolding delete_where
block-left from_block n [] h = refl
block-left from_block n (b ∷ bs) h = ground (arith, block-left from_block n bs)

transactions-left :
    (from_block : ℕ) (xs : List Transaction)
    → all
        (λ x. ltb x.block_number from_block)
        (delete_where (λ x. leb from_block x.block_number) xs)
      ≡ true
unfolding delete_where
transactions-left from_block [] = refl
transactions-left from_block (x ∷ xs) = ground (arith, transactions-left from_block xs)

-- After a rollback from a height no block and no transaction is at or above it, every block below
-- is there or not as before, and an existing checkpoint is right below it (0 for a rollback from 0).
pub rollback_clears :
    (from_block : ℕ) (t : Tables)
    → let t' = (rollback_from_block from_block t).0 in
      ((n : ℕ) → from_block ≤ n → has_block t' n ≡ false)
      × ((n : ℕ) → n < from_block → has_block t' n ≡ has_block t n)
      × (all (λ x. ltb x.block_number from_block) t'.transactions ≡ true)
      × ((c : ℕ) → get_last_checkpoint t ≡ some c → get_last_checkpoint t' ≡ some (from_block - 1))
unfolding rollback_from_block has_block get_last_checkpoint
rollback_clears from_block t = (
  λ n h. no_block-left from_block n t.blocks h,
  λ n h. block-left from_block n t.blocks h,
  transactions-left from_block t.transactions,
  λ c h. rw h (unfold rewind_checkpoint in refl),
)

-- Nothing that belongs to a transaction is orphaned any more.
orphans-left :
    {A : Type 0} (tx_hash : A → Text) (from_block : ℕ) (txs : List Transaction) (xs : List A)
    → delete_where
        (λ x.
          in_orphans (delete_where (λ y. leb from_block y.block_number) txs) from_block (tx_hash x))
        xs
      ≡ xs
orphans-left tx_hash from_block txs xs =
    delete_where_none _ (λ x. in_orphans-left from_block (tx_hash x) txs) xs

rewind_again :
    (from_block : ℕ) (c : Option ℕ)
    → rewind_checkpoint from_block (rewind_checkpoint from_block c) ≡ rewind_checkpoint from_block c
unfolding rewind_checkpoint
rewind_again from_block none = refl
rewind_again from_block (some c) = refl

-- A second rollback from the same height changes nothing and deletes no block.
pub rollback_again :
    (from_block : ℕ) (t : Tables)
    → let t' = (rollback_from_block from_block t).0 in rollback_from_block from_block t' ≡ (t', 0)
unfolding rollback_from_block
rollback_again from_block t =
    let none_deleted : (n : ℕ) → n - n ≡ 0 = λ n. omega arith in
    rw
      (
        delete_where_again (λ b. leb from_block b.block_number) t.blocks,
        delete_where_again (λ x. leb from_block x.block_number) t.transactions,
        orphans-left (λ x. x.tx_hash) from_block t.transactions
            (delete_where (λ x. in_orphans t.transactions from_block x.tx_hash) t.swap_events),
        orphans-left (λ x. x.tx_hash) from_block t.transactions
            (delete_where (λ x. in_orphans t.transactions from_block x.tx_hash) t.liquidity_events),
        orphans-left (λ x. x.tx_hash) from_block t.transactions
            (delete_where (λ x. in_orphans t.transactions from_block x.tx_hash) t.token_transfers),
        orphans-left (λ x. x.tx_hash) from_block t.transactions
            (delete_where (λ x. in_orphans t.transactions from_block x.tx_hash)
              t.failed_transactions),
        orphans-left (λ x. x.tx_hash) from_block t.transactions
            (delete_where (λ x. in_orphans t.transactions from_block x.tx_hash) t.trace_logs),
        rewind_again from_block t.checkpoint,
        none_deleted,
      )
      refl
