-- ===== src/Follow/Cycle.antt =====
-- crates/indexer/src/worker.rs: `WorkerPool::follow`, one round of its loop and the loop over the
-- rounds. What the node, the clock and the operator do in a round is given with the round.
use defi_tx_indexer.Prelude.{
  ℕ, ◌+◌, ◌-◌, Bool, false, Option, none, some, List, [], ◌∷◌, length, pos, if◌then◌else◌,
}
use defi_tx_indexer.Reorg.{LocalBlock, Fetched, detect_fork}
use defi_tx_indexer.Follow.{next_target, cap_range_to, reorg_scan_cap, follow_cycle_block_cap}
use defi_tx_indexer.Follow.BlockStore.{BlockStore}
use defi_tx_indexer.Follow.Ranges.{
  RangeExit, finished, cancelled, failed, panicked, spent, Chunk, index_range,
}

-- `FollowMetrics`
pub record FollowMetrics : Type 0 where
  pub cycle : ℕ
  pub blocks_indexed : ℕ
  pub reorgs : ℕ
  pub last_reorg_depth : ℕ

-- What ends the wait of a round: a tick of the subscription or the end of the sleep, the channel
-- of the subscription closed, or Ctrl-C.
pub data Wake : Type 0 where
  ticked : Wake
  closed : Wake
  interrupted : Wake

-- What becomes of the loop after a round.
pub data Next : Type 0 where
  again : Next
  stopped : Next
  errored : Next

module _ (store : BlockStore) where
  open store use {State, checkpoint, recent, rollback, rolled}

  pub record Round : Type 0 where
    -- the node's answer for each height, and the height of its head, if it answers
    pub rpc : ℕ → Fetched
    pub head : Option ℕ
    pub chunk : ℕ → Chunk store
    -- the flag as it is read after the indexing
    pub cancel : Bool
    pub wake : Wake

  pub record Loop : Type 0 where
    pub state : State
    pub metrics : FollowMetrics
    -- `ws_rx` is `Some`
    pub subscribed : Bool

  -- The `tokio::select!` of a round, and the fall-back to polling.
  unfoldable pub wait : Wake → Loop → Loop × Next
  wait ticked l = (l, again)
  wait closed l = (record l { subscribed = false }, again)
  wait interrupted l = (l, stopped)

  -- The blocks are counted behind the `?` of `index_range`.
  abbrev count_blocks : RangeExit → ℕ → FollowMetrics → FollowMetrics
  count_blocks finished n m = record m { blocks_indexed = m.blocks_indexed + n }
  count_blocks cancelled n m = record m { blocks_indexed = m.blocks_indexed + n }
  count_blocks failed n m = m
  count_blocks panicked n m = m
  count_blocks spent n m = m

  -- The tail of a round, behind the indexing.
  unfoldable pub rest_of_round : Round → RangeExit → Loop → Loop × Next
  unfolding wait
  rest_of_round round failed l = (l, errored)
  rest_of_round round panicked l = (l, errored)
  rest_of_round round finished l = if round.cancel then (l, stopped) else wait round.wake l
  rest_of_round round cancelled l = if round.cancel then (l, stopped) else wait round.wake l
  rest_of_round round spent l = (l, errored)

  -- `match next_target(…)`, the range cut to the cap of a round
  unfoldable pub index_target : Round → ℕ → Option (ℕ × ℕ) → Loop → Loop × Next
  unfolding rest_of_round
  index_target round batch_size none l = rest_of_round round finished l
  index_target round batch_size (some (from, to)) l =
      let (from_c, to_c) = cap_range_to from to follow_cycle_block_cap in
      let (s', exit) = index_range store (to_c + 2) round.chunk from_c to_c batch_size l.state in
      rest_of_round round exit
        (record l { state = s'; metrics = count_blocks exit (to_c - from_c + 1) l.metrics })

  -- A round without a reorg: ask for the head, and index what is confirmed.
  unfoldable pub follow_head : Round → ℕ → ℕ → Option ℕ → Loop → Loop × Next
  unfolding index_target
  follow_head round confirmations batch_size none l = (l, errored)
  follow_head round confirmations batch_size (some head) l =
      index_target round batch_size
        (next_target head confirmations
          (elim (checkpoint l.state) [ none ↦ none | some c ↦ some (pos c) ]))
        l

  abbrev count_reorg : ℕ → FollowMetrics → FollowMetrics
  count_reorg depth m = record m { reorgs = m.reorgs + 1; last_reorg_depth = depth }

  -- The reorg check comes first: on a fork the round ends with the rollback.
  unfoldable pub check_reorg : Round → ℕ → ℕ → Option (Option ℕ) → Loop → Loop × Next
  unfolding follow_head
  check_reorg round confirmations batch_size none l = (l, errored)
  check_reorg round confirmations batch_size (some none) l =
      follow_head round confirmations batch_size round.head l
  check_reorg round confirmations batch_size (some (some f)) l = (
    record l { state = rollback l.state f; metrics = count_reorg (rolled l.state f) l.metrics },
    again,
  )

  abbrev count_cycle : FollowMetrics → FollowMetrics
  count_cycle m = record m { cycle = m.cycle + 1 }

  -- The local blocks that a round compares with the chain.
  abbrev pub local_of : Loop → List LocalBlock
  local_of l = recent l.state reorg_scan_cap

  unfoldable pub follow_round : Round → ℕ → ℕ → Loop → Loop × Next
  unfolding check_reorg
  follow_round round confirmations batch_size l =
      check_reorg round confirmations batch_size
        (detect_fork round.rpc (length (local_of l)) (local_of l))
        (record l { metrics = count_cycle l.metrics })

  -- Whether the loop goes on to the rest.
  unfoldable pub go_on : Next → Loop → Loop × Next → Loop × Next
  go_on again l rest = rest
  go_on stopped l rest = (l, stopped)
  go_on errored l rest = (l, errored)

  -- The loop over the rounds given: it goes on while a round says so.
  unfoldable pub follow : List Round → ℕ → ℕ → Loop → Loop × Next
  unfolding go_on
  follow [] confirmations batch_size l = (l, again)
  follow (round ∷ rounds) confirmations batch_size l =
      let (l', next) = follow_round round confirmations batch_size l in
      let rest = follow rounds confirmations batch_size l' in go_on next l' rest
