-- ===== src/Follow/Ranges.antt =====
-- crates/indexer/src/worker.rs: `WorkerPool::process_chunk` and `WorkerPool::index_range`.
-- The tasks of a chunk run at once; the order in which they complete is given with the chunk.
use defi_tx_indexer.Prelude.{
  ℕ, zero, suc, ◌+◌, ◌%◌, min, Bool, true, false, List, [], ◌∷◌, ltb, ◌==◌, if◌then◌else◌,
}
use defi_tx_indexer.Follow.BlockStore.{BlockStore}

-- How `index_range` ends: all chunks done, stopped at a chunk boundary, an error of a block, a
-- panic of `step_by(0)`; `spent` is the fuel of the model.
pub data RangeExit : Type 0 where
  finished : RangeExit
  cancelled : RangeExit
  failed : RangeExit
  panicked : RangeExit
  spent : RangeExit

abbrev wrap64 : ℕ → ℕ
wrap64 n = n % 18446744073709551616

-- `(chunk_start + batch_size - 1).min(to_block)`, in the arithmetic of a release build
unfoldable pub chunk_end : ℕ → ℕ → ℕ → ℕ
chunk_end chunk_start batch_size to_block =
    min (wrap64 (wrap64 (chunk_start + batch_size) + 18446744073709551615)) to_block

module _ (store : BlockStore) where
  open store use {State, Feed, set_checkpoint, process_block}

  -- What happens around one chunk: the flag that is read before it, and the blocks in the order
  -- in which their tasks complete, each with what the node returned for it.
  pub record Chunk : Type 0 where
    pub cancel : Bool
    pub order : List (ℕ × Feed)

  -- `while let Some(result) = join_set.join_next().await { result??; }`
  unfoldable pub process_chunk : List (ℕ × Feed) → State → State × Bool
  process_chunk [] s = (s, true)
  process_chunk ((n, w) ∷ order) s =
      let (s', good) = process_block w n s in
      let rest = process_chunk order s' in if good then rest else (s', false)

  -- One round of the loop over the chunk starts, and the rounds behind it.
  unfoldable pub index_from : ℕ → (ℕ → Chunk) → ℕ → ℕ → ℕ → State → State × RangeExit
  unfolding process_chunk chunk_end
  index_from zero chunk chunk_start to_block batch_size s = (s, spent)
  index_from (suc fuel) chunk chunk_start to_block batch_size s =
      let (s', good) = process_chunk (chunk chunk_start).order s in
      let next =
        index_from fuel chunk (chunk_start + batch_size) to_block batch_size
          (set_checkpoint s' (chunk_end chunk_start batch_size to_block)) in
      if ltb to_block chunk_start
      then (s, finished)
      else if (chunk chunk_start).cancel
      then (s, cancelled)
      else if good
      then next
      else (s', failed)

  -- `step_by` panics on a step of 0 before the loop starts.
  unfoldable pub index_range : ℕ → (ℕ → Chunk) → ℕ → ℕ → ℕ → State → State × RangeExit
  unfolding index_from
  index_range fuel chunk from_block to_block batch_size s =
      if batch_size == 0
      then (s, panicked)
      else index_from fuel chunk from_block to_block batch_size s
