-- ===== src/Follow/Chunks.antt =====
-- The tasks of one chunk (`process_chunk`): what they leave in the store, in any order.
use defi_tx_indexer.Prelude.{
  ℕ, ◌+◌, ◌≤◌, ◌<◌, ◌≡◌, refl, subst, ◌∙◌, ◌⊎◌, inl, inr, min, true, some, List, [], ◌∷◌, arith,
  Bool-cases,
}
use defi_tx_indexer.Follow.BlockStore.{BlockStore, StoreLaws}
use defi_tx_indexer.Follow.Ranges.{chunk_end, process_chunk}

pub chunk_end_lem :
    (chunk_start batch_size to_block : ℕ)
    → chunk_start ≤ to_block
    → 1 ≤ batch_size
    → to_block + batch_size < 18446744073709551616
    → (chunk_start ≤ chunk_end chunk_start batch_size to_block)
      × (chunk_end chunk_start batch_size to_block + 1
          ≡ min (chunk_start + batch_size) (to_block + 1))
unfolding chunk_end
chunk_end_lem chunk_start batch_size to_block h one small = omega arith

module _ (store : BlockStore) (laws : StoreLaws store) where
  open store use {State, Feed, Done, checkpoint, set_checkpoint, process_block}

  abbrev Occurs : ℕ → List (ℕ × Feed) → Type 0
  Occurs m [] = ⊥
  Occurs m ((n, w) ∷ order) = (n ≡ m) ⊎ Occurs m order

  -- Every block of the chunk has its task.
  abbrev pub Scheduled : List (ℕ × Feed) → ℕ → ℕ → Type 0
  Scheduled order from to = (m : ℕ) → from ≤ m → m ≤ to → Occurs m order

  pub process_chunk-Done :
      (order : List (ℕ × Feed)) (s : State) (m : ℕ)
      → Done s m
      → Done (process_chunk store order s).0 m
  unfolding process_chunk
  process_chunk-Done [] s m d = d
  process_chunk-Done ((n, w) ∷ order) s m d =
      let kept = laws.process_block-Done w n s m d in
      elim (Bool-cases (process_block w n s).1) [
        | inl good ↦ rw good (process_chunk-Done order (process_block w n s).0 m kept)
        | inr bad ↦ rw bad kept
      ]

  process_chunk-checkpoint :
      (order : List (ℕ × Feed)) (s : State)
      → checkpoint (process_chunk store order s).0 ≡ checkpoint s
  unfolding process_chunk
  process_chunk-checkpoint [] s = refl
  process_chunk-checkpoint ((n, w) ∷ order) s = elim (Bool-cases (process_block w n s).1) [
    | inl good ↦ rw good (
        process_chunk-checkpoint order (process_block w n s).0
        ∙ laws.process_block-checkpoint w n s)
    | inr bad ↦ rw bad (laws.process_block-checkpoint w n s)
  ]

  pub process_chunk_all :
      (order : List (ℕ × Feed)) (s : State) (m : ℕ)
      → (process_chunk store order s).1 ≡ true
      → Occurs m order
      → Done (process_chunk store order s).0 m
  unfolding process_chunk
  process_chunk_all [] s m e o = absurd o
  process_chunk_all ((n, w) ∷ order) s m e o = elim (Bool-cases (process_block w n s).1) [
    | inl good ↦ rw good (elim o [
      | inl here ↦
          process_chunk-Done order (process_block w n s).0 m
            (subst (Done (process_block w n s).0) here (laws.process_block-Done_self w n s good))
      | inr later ↦ process_chunk_all order (process_block w n s).0 m (rw good at e) later
    ])
    | inr bad ↦ ground arith
  ]

  -- Every block from `lo` up to the checkpoint is in the tables.
  pub record Sound (lo : ℕ) (s : State) : Type 0 where
    pub last : ℕ
    pub at : checkpoint s ≡ some last
    pub all_done : (m : ℕ) → lo ≤ m → m ≤ last → Done s m

  -- What one finished chunk adds.
  pub advance-Sound :
      (lo n : ℕ) (s : State) → ((m : ℕ) → lo ≤ m → m ≤ n → Done s m) → Sound lo (set_checkpoint s n)
  advance-Sound lo n s d = record {
    last = n;
    at = laws.set_checkpoint-checkpoint s n;
    all_done = λ m from to. laws.set_checkpoint-Done s n m (d m from to);
  }

  pub process_chunk-Sound :
      (lo : ℕ) (order : List (ℕ × Feed)) (s : State)
      → Sound lo s
      → Sound lo (process_chunk store order s).0
  process_chunk-Sound lo order s h = record {
    last = h.last;
    at = process_chunk-checkpoint order s ∙ h.at;
    all_done = λ m from to. process_chunk-Done order s m (h.all_done m from to);
  }
