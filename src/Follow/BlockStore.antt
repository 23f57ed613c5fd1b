-- ===== src/Follow/BlockStore.antt =====
-- What the follow loop asks of the database and of `process_block`: the operations that it calls,
-- and the laws that its own correctness rests on.
use defi_tx_indexer.Prelude.{ℕ, ◌-◌, ◌<◌, ◌≡◌, Bool, true, Option, none, some, List}
use defi_tx_indexer.Reorg.{LocalBlock}

pub record BlockStore : Type 1 where
  pub State : Type 0
  -- what the node returns for one block while it is processed
  pub Feed : Type 0
  -- the block at a height is in the tables, with all that belongs to it
  pub Done : State → ℕ → Type 0
  -- `get_last_checkpoint(1)`
  pub checkpoint : State → Option ℕ
  -- `update_checkpoint(1, n)`
  pub set_checkpoint : State → ℕ → State
  -- `recent_block_hashes`
  pub recent : State → ℕ → List LocalBlock
  -- `rollback_from_block`, and the count of blocks that it returns
  pub rollback : State → ℕ → State
  pub rolled : State → ℕ → ℕ
  -- `process_block`; the tables may have changed where it fails
  pub process_block : Feed → ℕ → State → State × Bool

-- The laws of a store.
module _ (store : BlockStore) where
  open store use {State, Feed, Done, checkpoint, set_checkpoint, rollback, process_block}

  pub record StoreLaws : Type 0 where
    pub set_checkpoint-checkpoint : (s : State) (n : ℕ) → checkpoint (set_checkpoint s n) ≡ some n
    pub set_checkpoint-Done : (s : State) (n m : ℕ) → Done s m → Done (set_checkpoint s n) m
    pub process_block-checkpoint :
        (w : Feed) (n : ℕ) (s : State) → checkpoint (process_block w n s).0 ≡ checkpoint s
    pub process_block-Done :
        (w : Feed) (n : ℕ) (s : State) (m : ℕ) → Done s m → Done (process_block w n s).0 m
    pub process_block-Done_self :
        (w : Feed) (n : ℕ) (s : State)
        → (process_block w n s).1 ≡ true
        → Done (process_block w n s).0 n
    pub rollback-checkpoint :
        (s : State) (f c : ℕ) → checkpoint s ≡ some c → checkpoint (rollback s f) ≡ some (f - 1)
    pub rollback-checkpoint_none :
        (s : State) (f : ℕ) → checkpoint s ≡ none → checkpoint (rollback s f) ≡ none
    pub rollback-Done : (s : State) (f m : ℕ) → m < f → Done s m → Done (rollback s f) m
