-- ===== src/Follow/Turns.antt =====
-- One turn of the loop of `index_range`: what it leaves in the store, for each way in which it goes on
-- or stops.
use defi_tx_indexer.Prelude.{ℕ, ◌+◌, ◌≤◌, ◌<◌, ◌≡◌, ◌≢◌, refl, ap, ◌∙◌, min, true, some, arith}
use native.Mathlib.Decide.{dec_lt}
use defi_tx_indexer.Follow.Chunks.{
  chunk_end_lem, Scheduled, process_chunk-Done, process_chunk_all, process_chunk-Sound, Sound,
  advance-Sound,
}
use defi_tx_indexer.Follow.BlockStore.{BlockStore, StoreLaws}
use defi_tx_indexer.Follow.Ranges.{RangeExit, finished, failed, chunk_end, Chunk, process_chunk}

module _ (store : BlockStore) (laws : StoreLaws store) where
  open store use {State, Feed, Done, checkpoint, set_checkpoint, process_block}

  module _ (chunk : ℕ → Chunk store) (lo to_block batch_size : ℕ) where
    -- The chunk from each start has a task for each of its blocks.
    abbrev pub AllScheduled : Type 0
    AllScheduled =
        (start : ℕ)
        → Scheduled store laws (chunk start).order start (chunk_end start batch_size to_block)

    -- What the loop leaves when it stops, from a store that has everything below its next chunk.
    pub record Indexed (chunk_start : ℕ) (s : State) (r : State × RangeExit) : Type 0 where
      pub kept : (m : ℕ) → Done s m → Done r.0 m
      pub sound : Sound store laws lo s → Sound store laws lo r.0
      pub whole : r.1 ≡ finished → (m : ℕ) → lo ≤ m → m ≤ to_block → Done r.0 m
      pub advanced : r.1 ≡ finished → chunk_start ≤ to_block → checkpoint r.0 ≡ some to_block
      pub unmoved : to_block < chunk_start → r.0 ≡ s

    -- The store that a finished chunk leaves.
    abbrev pub after_chunk : ℕ → State → State
    after_chunk chunk_start s =
        set_checkpoint (process_chunk store (chunk chunk_start).order s).0
          (chunk_end chunk_start batch_size to_block)

    unfoldable pub Below : ℕ → State → Type 0
    Below chunk_start s = (m : ℕ) → lo ≤ m → m < chunk_start → m ≤ to_block → Done s m

    chunk_all_done :
        (chunk_start : ℕ) (s : State)
        → AllScheduled
        → Below chunk_start s
        → (process_chunk store (chunk chunk_start).order s).1 ≡ true
        → (m : ℕ) → lo ≤ m
        → m ≤ chunk_end chunk_start batch_size to_block
        → m ≤ to_block
        → Done (process_chunk store (chunk chunk_start).order s).0 m
    unfolding Below
    chunk_all_done chunk_start s sched below good m from to within = elim (dec_lt m chunk_start) [
      | yes before ↦
          process_chunk-Done store laws (chunk chunk_start).order s m (below m from before within)
      | no here ↦
          process_chunk_all store laws (chunk chunk_start).order s m good
            (sched chunk_start m (omega arith) to)
    ]

    pub Indexed-next :
        (chunk_start : ℕ) (s : State) (r : State × RangeExit)
        → AllScheduled
        → chunk_start ≤ to_block
        → 1 ≤ batch_size
        → to_block + batch_size < 18446744073709551616
        → Below chunk_start s
        → (process_chunk store (chunk chunk_start).order s).1 ≡ true
        → Indexed (chunk_start + batch_size) (after_chunk chunk_start s) r
        → Indexed chunk_start s r
    Indexed-next chunk_start s r sched more one small below good next = record {
      kept = λ m d.
          next.kept m (laws.set_checkpoint-Done _ _ m (process_chunk-Done store laws order s m d));
      sound = λ h. next.sound (
          advance-Sound store laws lo e s'
            (λ m from to. all_done m from to (omega (arith, e_lem))));
      whole = next.whole;
      advanced = λ f _. elim (dec_lt to_block (chunk_start + batch_size)) [
        | yes last ↦
            ap checkpoint (next.unmoved last)
            ∙ laws.set_checkpoint-checkpoint s' e
            ∙ ap some (omega (arith, e_lem))
        | no inner ↦ next.advanced f (omega arith)
      ];
      unmoved = λ over. absurd (omega arith);
    }
      where
        open (chunk chunk_start) use {order}

        e : ℕ
        e = chunk_end chunk_start batch_size to_block

        e_lem : (chunk_start ≤ e) × (e + 1 ≡ min (chunk_start + batch_size) (to_block + 1))
        e_lem = chunk_end_lem chunk_start batch_size to_block more one small

        s' : State
        s' = (process_chunk store order s).0

        all_done : (m : ℕ) → lo ≤ m → m ≤ e → m ≤ to_block → Done s' m
        all_done = chunk_all_done chunk_start s sched below good

    pub Below-next :
        (chunk_start : ℕ) (s : State)
        → AllScheduled
        → chunk_start ≤ to_block
        → 1 ≤ batch_size
        → to_block + batch_size < 18446744073709551616
        → Below chunk_start s
        → (process_chunk store (chunk chunk_start).order s).1 ≡ true
        → Below (chunk_start + batch_size) (after_chunk chunk_start s)
    unfolding Below
    Below-next chunk_start s sched more one small below good m from before within =
        laws.set_checkpoint-Done _ _ m (
          chunk_all_done chunk_start s sched below good m from
            (omega (arith, chunk_end_lem chunk_start batch_size to_block more one small)) within)

    pub Indexed-stop :
        (chunk_start : ℕ) (s : State) (x : RangeExit)
        → x ≢ finished
        → chunk_start ≤ to_block
        → Indexed chunk_start s (s, x)
    Indexed-stop chunk_start s x early more = record {
      kept = λ m d. d;
      sound = λ h. h;
      whole = λ e. absurd (early e);
      advanced = λ e. absurd (early e);
      unmoved = λ over. refl;
    }

    pub Indexed-failed :
        (chunk_start : ℕ) (s : State)
        → chunk_start ≤ to_block
        → Indexed chunk_start s ((process_chunk store (chunk chunk_start).order s).0, failed)
    Indexed-failed chunk_start s more = record {
      kept = λ m d. process_chunk-Done store laws (chunk chunk_start).order s m d;
      sound = λ h. process_chunk-Sound store laws lo (chunk chunk_start).order s h;
      whole = λ e. cc;
      advanced = λ e. cc;
      unmoved = λ over. absurd (omega arith);
    }

    pub Indexed-over :
        (chunk_start : ℕ) (s : State)
        → to_block < chunk_start
        → Below chunk_start s
        → Indexed chunk_start s (s, finished)
    unfolding Below
    Indexed-over chunk_start s over below = record {
      kept = λ m d. d;
      sound = λ h. h;
      whole = λ e m from to. below m from (omega arith) to;
      advanced = λ e more. absurd (omega arith);
      unmoved = λ _. refl;
    }
