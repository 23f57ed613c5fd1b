-- ===== src/Follow/Safety.antt =====
-- The follow loop keeps the store sound: through reorgs, cancellation, failures and restarts.
use defi_tx_indexer.Prelude.{
  ℕ, ◌+◌, ◌-◌, ◌≤◌, ◌<◌, ◌≡◌, refl, sym, subst, ap, ◌∙◌, inl, inr, Option, none, some, List, [],
  ◌∷◌, arith, Option-cases, length, pos, u64_max,
}
use defi_tx_indexer.Reorg.{detect_fork}
use defi_tx_indexer.Follow.{next_target, cap_range_to, follow_cycle_block_cap}
use defi_tx_indexer.Follow.Targets.{next_target-some, cap_range_to_lem}
use defi_tx_indexer.Follow.BlockStore.{BlockStore, StoreLaws}
use defi_tx_indexer.Follow.Ranges.{
  RangeExit, finished, cancelled, failed, panicked, spent, index_range,
}
use defi_tx_indexer.Follow.Chunks.{Sound}
use defi_tx_indexer.Follow.Turns.{AllScheduled}
use defi_tx_indexer.Follow.Indexed.{index_range-Sound}
use defi_tx_indexer.Follow.Cycle.{
  Round, Loop, Wake, ticked, closed, interrupted, Next, again, stopped, errored, wait,
  rest_of_round, index_target, follow_head, check_reorg, follow_round, follow, local_of, go_on,
}

module _ (store : BlockStore) (laws : StoreLaws store) (lo confirmations batch_size : ℕ) where
  open store use {State, Done, checkpoint, rollback}

  -- The tasks of every chunk of the round are the blocks of the chunk, and the head is a height
  -- at which the arithmetic of the chunks does not wrap.
  pub record IsFair (round : Round store) : Type 0 where
    pub scheduled : (to : ℕ) → AllScheduled store laws round.chunk lo to batch_size
    pub in_range : (head : ℕ) → round.head ≡ some head → head + batch_size < u64_max

  wait-state : (w : Wake) (l : Loop store) → (wait store w l).0.state ≡ l.state
  unfolding wait
  wait-state ticked l = refl
  wait-state closed l = refl
  wait-state interrupted l = refl

  pub rest_of_round-state :
      (round : Round store) (x : RangeExit) (l : Loop store)
      → (rest_of_round store round x l).0.state ≡ l.state
  unfolding rest_of_round
  rest_of_round-state round finished l = ground (arith, wait-state round.wake l)
  rest_of_round-state round cancelled l = ground (arith, wait-state round.wake l)
  rest_of_round-state round failed l = refl
  rest_of_round-state round panicked l = refl
  rest_of_round-state round spent l = refl

  module _ (round : Round store) (one : 1 ≤ batch_size) (fair : IsFair round) where
    index_target-Sound :
        (head c from to : ℕ) (l : Loop store)
        → round.head ≡ some head
        → checkpoint l.state ≡ some c
        → next_target head confirmations (some (pos c)) ≡ some (from, to)
        → Sound store laws lo l.state
        → Sound store laws lo (index_target store round batch_size (some (from, to)) l).0.state
    unfolding index_target
    index_target-Sound head c from to l answered at target sound =
        let in_range = fair.in_range head answered in
        let (starts, nonempty, ends) =
          next_target-some head confirmations from to (pos c) (omega arith) target in
        let (same, more, within, _) =
          cap_range_to_lem from to follow_cycle_block_cap nonempty (omega arith) (omega arith)
            (omega arith) in
        let from_c : ℕ = (cap_range_to from to follow_cycle_block_cap).0 in
        let to_c : ℕ = (cap_range_to from to follow_cycle_block_cap).1 in
        let next = index_range store (to_c + 2) round.chunk from_c to_c batch_size l.state in
        let last_is : sound.last ≡ c = cc in
        subst (Sound store laws lo) (sym (rest_of_round-state round next.1 _)) (
          (index_range-Sound store laws round.chunk lo to_c batch_size (to_c + 2) from_c l.state one
              (omega arith) (omega arith) (fair.scheduled to_c) (omega arith)
              (λ m low below. sound.all_done m low (omega (arith, last_is)))).0
            sound)

    follow_head-Sound :
        (answer : Option ℕ) (l : Loop store)
        → round.head ≡ answer
        → Sound store laws lo l.state
        → Sound store laws lo (follow_head store round confirmations batch_size answer l).0.state
    unfolding follow_head index_target
    follow_head-Sound none l answered sound = sound
    follow_head-Sound (some head) l answered sound =
        rw sound.at (elim (Option-cases (next_target head confirmations (some (pos sound.last)))) [
          | inl nothing ↦
              rw nothing
                (subst (Sound store laws lo) (sym (rest_of_round-state round finished l)) sound)
          | inr ((from, to), target) ↦
              rw target
                (index_target-Sound head sound.last from to l answered sound.at target sound)
        ])

  rollback-Sound :
      (f : ℕ) (s : State)
      → 1 ≤ lo
      → (sound : Sound store laws lo s) → f ≤ sound.last + 1
      → Sound store laws lo (rollback s f)
  rollback-Sound f s above sound within = record {
    last = f - 1;
    at = laws.rollback-checkpoint s f sound.last sound.at;
    all_done =
        λ m from to. laws.rollback-Done s f m (omega arith) (sound.all_done m from (omega arith));
  }

  -- The fork that a round finds is not behind the block after the checkpoint.
  unfoldable pub ForkWithin : Round store → Loop store → Type 0
  ForkWithin round l =
      (f c : ℕ)
      → detect_fork round.rpc (length (local_of store l)) (local_of store l) ≡ some (some f)
      → checkpoint l.state ≡ some c
      → f ≤ c + 1

  -- One round keeps the store sound, whichever way it goes: a reorg or none, nothing to index, a
  -- range that ends, is cancelled or fails, an error of the node. The tasks of a chunk are its
  -- blocks, and a fork is at most one above the checkpoint.
  pub follow_round-Sound :
      (round : Round store) (l : Loop store)
      → 1 ≤ lo
      → 1 ≤ batch_size
      → IsFair round
      → ForkWithin round l
      → Sound store laws lo l.state
      → Sound store laws lo (follow_round store round confirmations batch_size l).0.state
  unfolding follow_round check_reorg ForkWithin
  follow_round-Sound round l above one fair within sound =
      elim (Option-cases (detect_fork round.rpc (length (local_of store l)) (local_of store l))) [
        | inl stuck ↦ rw stuck sound
        | inr (found, is_found) ↦ elim (Option-cases found) [
          | inl no_fork ↦
              rw (is_found, no_fork) (follow_head-Sound round one fair round.head _ refl sound)
          | inr (f, forked) ↦
              rw (is_found, forked)
                (rollback-Sound f l.state above sound
                  (within f sound.last (is_found ∙ ap some forked) sound.at))
        ]
      ]

  -- Every round that the loop reaches is fair, and its fork is within bounds.
  unfoldable pub FairRun : List (Round store) → Loop store → Type 0
  FairRun [] l = Unit
  FairRun (round ∷ rounds) l =
      IsFair round
      × ForkWithin round l
      × FairRun rounds (follow_round store round confirmations batch_size l).0

  ends_sound :
      (next : Next) (l : Loop store) (rest : Loop store × Next)
      → Sound store laws lo l.state
      → Sound store laws lo rest.0.state
      → Sound store laws lo (go_on store next l rest).0.state
  unfolding go_on
  ends_sound again l rest kept later = later
  ends_sound stopped l rest kept later = kept
  ends_sound errored l rest kept later = kept

  -- The loop keeps the store sound: after any number of rounds every block from `lo` up to the
  -- checkpoint is in the tables, if it was so at the start. This is under fair rounds whose forks
  -- are at most one above the checkpoint, and for `lo` and the batch size not 0.
  pub follow-Sound :
      (rounds : List (Round store)) (l : Loop store)
      → 1 ≤ lo
      → 1 ≤ batch_size
      → FairRun rounds l
      → Sound store laws lo l.state
      → Sound store laws lo (follow store rounds confirmations batch_size l).0.state
  unfolding follow FairRun
  follow-Sound [] l above one run sound = sound
  follow-Sound (round ∷ rounds) l above one (fair, within, run) sound =
      let (l', next) = follow_round store round confirmations batch_size l in
      let kept = follow_round-Sound round l above one fair within sound in
      ends_sound next l' (follow store rounds confirmations batch_size l') kept
        (follow-Sound rounds l' above one run kept)
