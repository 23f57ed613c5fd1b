-- ===== src/Follow/Progress.antt =====
-- What a round of the follow loop comes to: the range it indexes.
use defi_tx_indexer.Prelude.{
  ℕ, zero, suc, ◌+◌, ◌-◌, ◌≤◌, ◌<◌, ◌≡◌, inl, inr, refl, ap, ◌∙◌, min, true, false, Option, none,
  some, arith, ltb, ◌==◌, Bool-cases, Option-cases, length, pos,
}
use defi_tx_indexer.Reorg.{detect_fork}
use defi_tx_indexer.Follow.{next_target, cap_range_to, follow_cycle_block_cap}
use defi_tx_indexer.Follow.Targets.{next_target-some, next_target-none, cap_range_to_lem}
use defi_tx_indexer.Follow.BlockStore.{BlockStore, StoreLaws}
use defi_tx_indexer.Follow.Ranges.{finished, Chunk, process_chunk, index_from, index_range}
use defi_tx_indexer.Follow.Chunks.{Sound}
use defi_tx_indexer.Follow.Indexed.{index_range_finished}
use defi_tx_indexer.Follow.Cycle.{
  Round, Loop, follow_round, check_reorg, follow_head, index_target, local_of,
}
use defi_tx_indexer.Follow.Safety.{IsFair, rest_of_round-state}

module _ (store : BlockStore) (laws : StoreLaws store) where
  open store use {State, Done, checkpoint, set_checkpoint, rollback, rolled}

  -- Nothing stops the indexing of the chunks: no flag, and no block that fails.
  pub record Runs (chunk : ℕ → Chunk store) : Type 0 where
    pub on : (start : ℕ) → (chunk start).cancel ≡ false
    pub good : (start : ℕ) (s : State) → (process_chunk store (chunk start).order s).1 ≡ true

  module _ (chunk : ℕ → Chunk store) (runs : Runs chunk) (to_block batch_size : ℕ)
      (one : 1 ≤ batch_size) where
    index_from-finished :
        (fuel chunk_start : ℕ) (s : State)
        → 1 ≤ fuel
        → to_block + 1 < fuel + chunk_start
        → (index_from store fuel chunk chunk_start to_block batch_size s).1 ≡ finished
    unfolding index_from
    index_from-finished zero chunk_start s some_fuel enough = absurd (omega arith)
    index_from-finished (suc fuel) chunk_start s some_fuel enough =
        elim (Bool-cases (ltb to_block chunk_start)) [
          | inl over ↦ rw over refl
          | inr more ↦
              rw (more, runs.on chunk_start, runs.good chunk_start s)
                (index_from-finished fuel (chunk_start + batch_size) _ (ground arith) (omega arith))
        ]

    pub index_range_runs :
        (fuel from_block : ℕ) (s : State)
        → 1 ≤ fuel
        → to_block + 1 < fuel + from_block
        → (index_range store fuel chunk from_block to_block batch_size s).1 ≡ finished
    unfolding index_range
    index_range_runs fuel from_block s some_fuel enough =
        let e : (batch_size == 0) ≡ false = ground arith in
        rw e (index_from-finished fuel from_block s some_fuel enough)

  module _ (confirmations batch_size lo : ℕ) (round : Round store) (one : 1 ≤ batch_size)
      (fair : IsFair store laws lo confirmations batch_size round) (runs : Runs round.chunk) where
    index_target-advances :
        (head c from to : ℕ) (l : Loop store)
        → round.head ≡ some head
        → next_target head confirmations (some (pos c)) ≡ some (from, to)
        → (sound : Sound store laws lo l.state) → sound.last ≡ c
        → checkpoint (index_target store round batch_size (some (from, to)) l).0.state
          ≡ some (min (head - confirmations) (c + 500))
    unfolding index_target
    index_target-advances head c from to l answered target sound last_is =
        let in_range = fair.in_range head answered in
        let (starts, nonempty, ends) =
          next_target-some head confirmations from to (pos c) (omega arith) target in
        let (same, more, within, width) =
          cap_range_to_lem from to follow_cycle_block_cap nonempty (omega arith) (omega arith)
            (omega arith) in
        let from_c : ℕ = (cap_range_to from to follow_cycle_block_cap).0 in
        let to_c : ℕ = (cap_range_to from to follow_cycle_block_cap).1 in
        let done =
          index_range_runs round.chunk runs to_c batch_size one (to_c + 2) from_c l.state
            (omega arith) (omega arith) in
        let to_c_is : to_c ≡ min (head - confirmations) (c + 500) = omega arith in
        ap checkpoint (rest_of_round-state store laws lo confirmations batch_size round _ _)
        ∙ (index_range_finished store laws round.chunk lo to_c batch_size (to_c + 2) from_c l.state
            one (omega arith) (omega arith) (fair.scheduled to_c) (omega arith)
            (λ m low below. sound.all_done m low (omega arith)) done (omega arith)).1
        ∙ ap some to_c_is

    follow_head-advances :
        (answer : Option ℕ) (head : ℕ) (l : Loop store)
        → round.head ≡ some head
        → answer ≡ some head
        → (sound : Sound store laws lo l.state) → sound.last < head - confirmations
        → checkpoint (follow_head store round confirmations batch_size answer l).0.state
          ≡ some (min (head - confirmations) (sound.last + 500))
    unfolding follow_head
    follow_head-advances answer head l answered is sound behind =
        let in_range = fair.in_range head answered in
        rw (is, sound.at)
          (elim (Option-cases (next_target head confirmations (some (pos sound.last)))) [
            | inl nothing ↦ absurd (
                omega (
                  arith,
                  (next_target-none head confirmations (pos sound.last) (omega arith)).0 nothing,
                ))
            | inr ((from, to), target) ↦
                rw target
                  (index_target-advances head sound.last from to l answered target sound refl)
          ])

    -- A round with no reorg whose node answers and whose blocks all succeed moves the checkpoint
    -- from `c` to the confirmed head, or by the 500 blocks of the cap if that is less. The store
    -- is sound before, the head is above the checkpoint by more than the confirmations.
    pub follow_round_advances :
        (head : ℕ) (l : Loop store)
        → detect_fork round.rpc (length (local_of store l)) (local_of store l) ≡ some none
        → round.head ≡ some head
        → (sound : Sound store laws lo l.state) → sound.last < head - confirmations
        → checkpoint (follow_round store round confirmations batch_size l).0.state
          ≡ some (min (head - confirmations) (sound.last + 500))
    unfolding follow_round check_reorg
    follow_round_advances head l no_fork answered sound behind =
        rw no_fork (follow_head-advances round.head head _ answered answered sound behind)
