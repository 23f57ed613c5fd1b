-- ===== src/Follow/Indexed.antt =====
-- What `index_range` leaves in the store: the checkpoint never passes a block that is missing.
use defi_tx_indexer.Prelude.{
  ℕ, zero, suc, ◌+◌, ◌≤◌, ◌<◌, ◌≡◌, ◌≢◌, refl, inl, inr, false, some, arith, ltb, ◌==◌, Bool-cases,
  ltb→lt,
}
use defi_tx_indexer.Follow.Chunks.{Sound}
use defi_tx_indexer.Follow.BlockStore.{BlockStore, StoreLaws}
use defi_tx_indexer.Follow.Ranges.{
  RangeExit, finished, cancelled, panicked, spent, Chunk, process_chunk, index_from, index_range,
}
use defi_tx_indexer.Follow.Turns.{
  AllScheduled, Indexed, after_chunk, Below, Indexed-next, Below-next, Indexed-stop, Indexed-failed,
  Indexed-over,
}

module _ (store : BlockStore) (laws : StoreLaws store) where
  open store use {State, Feed, Done, checkpoint, set_checkpoint, process_block}

  module _ (chunk : ℕ → Chunk store) (lo to_block batch_size : ℕ) where
    index_from-Indexed :
        (fuel chunk_start : ℕ) (s : State)
        → AllScheduled store laws chunk lo to_block batch_size
        → 1 ≤ batch_size
        → to_block + batch_size < 18446744073709551616
        → to_block + 1 < fuel + chunk_start
        → Below store laws chunk lo to_block batch_size chunk_start s
        → Indexed store laws chunk lo to_block batch_size chunk_start s
            (index_from store fuel chunk chunk_start to_block batch_size s)
    unfolding index_from
    index_from-Indexed zero chunk_start s sched one small enough below = record {
      kept = λ m d. d;
      sound = λ h. h;
      whole = λ e. cc;
      advanced = λ e. cc;
      unmoved = λ _. refl;
    }
    index_from-Indexed (suc fuel) chunk_start s sched one small enough below =
        elim (Bool-cases (ltb to_block chunk_start)) [
          | inl over ↦ rw over (
              Indexed-over store laws chunk lo to_block batch_size chunk_start s (ltb→lt _ _ over)
                below)
          | inr more ↦
              let within : chunk_start ≤ to_block = ground arith in
              elim (Bool-cases (chunk chunk_start).cancel) [
                | inl stop ↦
                    rw (more, stop)
                      (Indexed-stop store laws chunk lo to_block batch_size chunk_start s cancelled
                        (λ e. cc) within)
                | inr go ↦ elim (Bool-cases (process_chunk store (chunk chunk_start).order s).1) [
                  | inr bad ↦
                      rw (more, go, bad)
                        (Indexed-failed store laws chunk lo to_block batch_size chunk_start s
                          within)
                  | inl good ↦
                      rw (more, go, good)
                        (Indexed-next store laws chunk lo to_block batch_size chunk_start s _ sched
                          within one small below good
                          (index_from-Indexed fuel (chunk_start + batch_size)
                            (after_chunk store laws chunk lo to_block batch_size chunk_start s)
                            sched one small (omega arith)
                            (Below-next store laws chunk lo to_block batch_size chunk_start s sched
                              within one small below good)))
                ]
              ]
        ]

    index_from-ne-spent :
        (fuel chunk_start : ℕ) (s : State)
        → 1 ≤ batch_size
        → 1 ≤ fuel
        → to_block + 1 < fuel + chunk_start
        → (index_from store fuel chunk chunk_start to_block batch_size s).1 ≢ spent
    unfolding index_from
    index_from-ne-spent zero chunk_start s one some_fuel enough = absurd (omega arith)
    index_from-ne-spent (suc fuel) chunk_start s one some_fuel enough = ground (
      arith,
      index_from-ne-spent fuel (chunk_start + batch_size)
          (after_chunk store laws chunk lo to_block batch_size chunk_start s) one,
    )

    index_from-ne-panicked :
        (fuel chunk_start : ℕ) (s : State)
        → (index_from store fuel chunk chunk_start to_block batch_size s).1 ≢ panicked
    unfolding index_from
    index_from-ne-panicked zero chunk_start s = λ e. cc
    index_from-ne-panicked (suc fuel) chunk_start s = ground (
      arith,
      index_from-ne-panicked fuel (chunk_start + batch_size)
          (after_chunk store laws chunk lo to_block batch_size chunk_start s),
    )

    index_range_pos :
        (fuel from_block : ℕ) (s : State)
        → 1 ≤ batch_size
        → index_range store fuel chunk from_block to_block batch_size s
          ≡ index_from store fuel chunk from_block to_block batch_size s
    unfolding index_range
    index_range_pos fuel from_block s one = let e : (batch_size == 0) ≡ false = ground arith in rw e

    module _ (fuel from_block : ℕ) (s : State) (one : 1 ≤ batch_size) (some_fuel : 1 ≤ fuel)
        (enough : to_block + 1 < fuel + from_block) where
      -- The loop ends within its fuel, and does not panic on a positive batch size.
      pub index_range_ends :
          ((index_range store fuel chunk from_block to_block batch_size s).1 ≢ spent)
          × ((index_range store fuel chunk from_block to_block batch_size s).1 ≢ panicked)
      index_range_ends = rw (index_range_pos fuel from_block s one) (
        index_from-ne-spent fuel from_block s one some_fuel enough,
        index_from-ne-panicked fuel from_block s,
      )

      module _ (sched : AllScheduled store laws chunk lo to_block batch_size)
          (small : to_block + batch_size < 18446744073709551616)
          (below : (m : ℕ) → lo ≤ m → m < from_block → Done s m) where
        abbrev index_from_result : State × RangeExit
        index_from_result = index_from store fuel chunk from_block to_block batch_size s

        same : index_range store fuel chunk from_block to_block batch_size s ≡ index_from_result
        same = index_range_pos fuel from_block s one

        indexed : Indexed store laws chunk lo to_block batch_size from_block s index_from_result
        indexed =
            index_from-Indexed fuel from_block s sched one small enough
              (unfold Below in λ m from before within. below m from before)

        -- A range that is not empty and that the loop finishes has every block from `lo` to its end in
        -- the tables, and the checkpoint at its end: if the blocks from `lo` up to the range are there,
        -- the tasks of every chunk are its blocks, the batch size is not 0, and the end of the range and
        -- the batch size together stay in a `u64`.
        pub index_range_finished :
            (index_range store fuel chunk from_block to_block batch_size s).1 ≡ finished
            → from_block ≤ to_block
            → ((m : ℕ)
                → lo ≤ m
                → m ≤ to_block
                → Done (index_range store fuel chunk from_block to_block batch_size s).0 m)
              × (checkpoint (index_range store fuel chunk from_block to_block batch_size s).0
                  ≡ some to_block)
        index_range_finished e more =
            let r = indexed in
            let done : index_from_result.1 ≡ finished = rw same at e in
            rw same (r.whole done, r.advanced done more)

        -- However the loop stops (cancelled, failed or finished), the checkpoint does not pass a
        -- block that is missing, and no block that was there is lost.
        pub index_range-Sound :
            (Sound store laws lo s
              → Sound store laws lo
                  (index_range store fuel chunk from_block to_block batch_size s).0)
            × ((m : ℕ)
                → Done s m
                → Done (index_range store fuel chunk from_block to_block batch_size s).0 m)
        index_range-Sound = rw same (indexed.sound, indexed.kept)
