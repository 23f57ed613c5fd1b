-- ===== src/Examples/FollowRuns.antt =====
-- crates/indexer/src/worker.rs: rounds of the follow loop over a small database.
use defi_tx_indexer.Follow.Recovery.{follow_recovers}
use defi_tx_indexer.Db.{rollback_from_block, delete_where}
use defi_tx_indexer.Db.Schema.{fits_block}
use defi_tx_indexer.Prelude.{
  ℕ, ◌+◌, ◌≡◌, ◌≢◌, ◌≤◌, refl, ◌⊎◌, true, false, none, some, [], ◌∷◌, codes, arith, length, text_eq,
}
use defi_tx_indexer.Reorg.{
  block, detect_fork, detect_from, fetch_window, lowest_height, classify_fork, scan_window,
  finish_scan, get_hash, settle_mismatch, next_scan_depth,
}
use defi_tx_indexer.Follow.{next_target, cap_range_to}
use defi_tx_indexer.Follow.Ranges.{
  Chunk, chunk_end, spent, panicked, index_range, index_from, process_chunk,
}
use defi_tx_indexer.Follow.Indexed.{index_range_finished, index_range_ends}
use defi_tx_indexer.Follow.Chunks.{Sound}
use defi_tx_indexer.Follow.Cycle.{
  Round, Loop, ticked, follow, follow_round, local_of, go_on, check_reorg, follow_head,
  index_target, rest_of_round, wait,
}
use defi_tx_indexer.Follow.Safety.{IsFair, ForkWithin, FairRun, follow-Sound}
use defi_tx_indexer.Follow.Progress.{Runs, index_range_runs, follow_round_advances}
use defi_tx_indexer.Db.{
  has_block, get_last_checkpoint, update_checkpoint, on_conflict_do_nothing, insert_blocks,
  insert_transactions, insert_swap_events, insert_liquidity_events, insert_token_transfers,
  insert_failed_transactions, insert_trace_logs,
}
use defi_tx_indexer.Db.Rollback.{perform}
use defi_tx_indexer.Db.Rows.{Tables}
use defi_tx_indexer.Db.Process.{
  database, process_block, write_rows, write_through, writes_of, later_writes, failed_writes,
  recent_block_hashes, hashed_desc, insert_desc,
}
use defi_tx_indexer.Db.Laws.{database-StoreLaws, database-Sound}
use defi_tx_indexer.Receipts.{Libraries, NodeBlock, rows_of, gather, failed_tx_hashes, failed_rows}
use defi_tx_indexer.Trace.Failed.{process_failed_txs}
use defi_tx_indexer.Follow.BlockStore.{BlockStore, StoreLaws}

-- One block, at height 1, and the checkpoint there.
abbrev one_block : Tables
one_block = record {
  blocks =
      record {
        block_number = 1;
        timestamp = 5;
        gas_used = 9;
        block_hash = some (codes "a");
        parent_hash = none;
      }
      ∷ [];
  transactions = [];
  swap_events = [];
  liquidity_events = [];
  token_transfers = [];
  failed_transactions = [];
  trace_logs = [];
  checkpoint = some 1;
}

abbrev empty_feed : NodeBlock
empty_feed = record {
  fetched = true;
  timestamp = 7;
  gas_used = 0;
  hash = codes "b";
  parent_hash = codes "a";
  transactions = [];
  receipts = [];
  trace = λ hash. none;
}

-- Libraries that decode nothing.
abbrev libs : Libraries
libs = record {
  abi = record {
    lower_other = λ c. c ∷ [];
    show_address = λ a. [];
    swap_topic = 1;
    mint_topic = 2;
    burn_topic = 3;
    transfer_topic = 4;
    decode_raw_swap = λ topics bytes. none;
    decode_raw_mint = λ topics bytes. none;
    decode_raw_burn = λ topics bytes. none;
    decode_raw_transfer = λ topics bytes. none;
  };
  show_hash = λ h. h ∷ [];
  show_bytes = λ bytes. bytes;
  decode_hex = λ s. none;
  from_utf8_lossy = λ bytes. bytes;
}

abbrev db : BlockStore
db = database libs

abbrev db_laws : StoreLaws db
db_laws = database-StoreLaws libs

-- The tasks of two blocks, the later one first.
abbrev pairs : ℕ → Chunk db
pairs start = record { cancel = false; order = (start + 1, empty_feed) ∷ (start, empty_feed) ∷ [] }

abbrev calm : Round db
calm = record {
  rpc = λ h. block (codes "a");
  head = some 4;
  chunk = pairs;
  cancel = false;
  wake = ticked;
}

abbrev fresh : Loop db
fresh = record {
  state = one_block;
  metrics = record { cycle = 0; blocks_indexed = 0; reorgs = 0; last_reorg_depth = 0 };
  subscribed = true;
}

both_scheduled :
    (to start m : ℕ) → start ≤ m → m ≤ chunk_end start 2 to → (start + 1 ≡ m) ⊎ ((start ≡ m) ⊎ ⊥)
unfolding chunk_end
both_scheduled to start m from below = ground arith

calm-IsFair : IsFair db db_laws 1 1 2 calm
calm-IsFair = record {
  scheduled = both_scheduled;
  in_range = λ head e. let head_is : 4 ≡ head = cc in omega arith;
}

calm-no_fork : detect_fork calm.rpc (length (local_of db fresh)) (local_of db fresh) ≡ some none
unfolding detect_fork detect_from fetch_window classify_fork scan_window finish_scan get_hash
    recent_block_hashes hashed_desc insert_desc text_eq
calm-no_fork = refl

abbrev fresh-Sound : Sound db db_laws 1 fresh.state
fresh-Sound = record {
  last = 1;
  at = unfold get_last_checkpoint in refl;
  all_done = λ m from to. let m_is : 1 ≡ m = omega arith in rw (← m_is) (unfold has_block in refl);
}

calm-FairRun : FairRun db db_laws 1 1 2 (calm ∷ []) fresh
unfolding FairRun ForkWithin
calm-FairRun =
    (calm-IsFair, λ f c forked at. let bad : none ≡ some f = cc calm-no_fork in absurd cc, tt)

follow-Sound_example : Sound db db_laws 1 (follow db (calm ∷ []) 1 2 fresh).0.state
follow-Sound_example =
    follow-Sound db db_laws 1 1 2 (calm ∷ []) fresh (omega arith) (omega arith) calm-FairRun
      fresh-Sound

pairs-Runs : Runs db db_laws pairs
pairs-Runs = record {
  on = λ start. refl;
  good = λ start s.
      unfold fits_block process_chunk process_block write_rows rows_of gather failed_tx_hashes
        failed_rows process_failed_txs write_through writes_of later_writes failed_writes perform
        insert_blocks insert_transactions insert_swap_events insert_liquidity_events
        insert_token_transfers insert_trace_logs insert_failed_transactions in
      refl;
}

follow_round_advances_example :
    get_last_checkpoint (follow_round db calm 1 2 fresh).0.state ≡ some 3
follow_round_advances_example =
    follow_round_advances db db_laws 1 2 1 calm (omega arith) calm-IsFair pairs-Runs 4 fresh
      calm-no_fork refl fresh-Sound (omega arith)

-- The node has another block at height 1.
abbrev forked : Round db
forked = record {
  rpc = λ h. block (codes "z");
  head = some 4;
  chunk = pairs;
  cancel = false;
  wake = ticked;
}

forked-found :
    detect_fork forked.rpc (length (local_of db fresh)) (local_of db fresh) ≡ some (some 1)
unfolding detect_fork detect_from lowest_height fetch_window classify_fork scan_window finish_scan
    get_hash settle_mismatch next_scan_depth recent_block_hashes hashed_desc insert_desc text_eq
forked-found = refl

after-no_fork :
    detect_fork calm.rpc
      (length (local_of db (follow_round db forked 1 2 fresh).0))
      (local_of db (follow_round db forked 1 2 fresh).0)
    ≡ some none
unfolding detect_fork detect_from lowest_height fetch_window classify_fork scan_window finish_scan
    get_hash settle_mismatch next_scan_depth recent_block_hashes hashed_desc insert_desc text_eq
    follow_round check_reorg rollback_from_block delete_where
after-no_fork = refl

follow_recovers_example :
    (get_last_checkpoint (follow db (forked ∷ calm ∷ []) 1 2 fresh).0.state ≡ some 3)
    × ((m : ℕ)
        → 1 ≤ m
        → m ≤ 3
        → has_block (follow db (forked ∷ calm ∷ []) 1 2 fresh).0.state m ≡ true)
follow_recovers_example =
    follow_recovers db db_laws 1 2 1 forked calm 1 4 fresh (omega arith) (omega arith) forked-found
      fresh-Sound (omega arith) after-no_fork calm-IsFair pairs-Runs refl (omega arith)

-- Blocks 2 and 3, in one chunk.
index_range_finished_example :
    ((m : ℕ) → 1 ≤ m → m ≤ 3 → has_block (index_range db 5 pairs 2 3 2 one_block).0 m ≡ true)
    × (get_last_checkpoint (index_range db 5 pairs 2 3 2 one_block).0 ≡ some 3)
index_range_finished_example =
    index_range_finished db db_laws pairs 1 3 2 5 2 one_block (omega arith) (omega arith)
      (omega arith) (both_scheduled 3) (omega arith)
      (λ m from below. fresh-Sound.all_done m from (omega arith))
      (index_range_runs db db_laws pairs pairs-Runs 3 2 (omega arith) 5 2 one_block (omega arith)
        (omega arith))
      (omega arith)

index_range_ends_example :
    ((index_range db 5 pairs 2 3 2 one_block).1 ≢ spent)
    × ((index_range db 5 pairs 2 3 2 one_block).1 ≢ panicked)
index_range_ends_example =
    index_range_ends db db_laws pairs 1 3 2 5 2 one_block (omega arith) (omega arith) (omega arith)

calm-checkpoint : get_last_checkpoint (follow db (calm ∷ []) 1 2 fresh).0.state ≡ some 3
unfolding follow go_on follow_round check_reorg follow_head index_target rest_of_round wait
    index_range index_from process_chunk chunk_end next_target cap_range_to detect_fork detect_from
    lowest_height fetch_window classify_fork scan_window finish_scan get_hash settle_mismatch
    next_scan_depth recent_block_hashes hashed_desc insert_desc text_eq get_last_checkpoint
    update_checkpoint process_block write_rows rows_of gather failed_tx_hashes failed_rows
    process_failed_txs write_through writes_of later_writes failed_writes perform insert_blocks
    on_conflict_do_nothing insert_transactions insert_swap_events insert_liquidity_events
    insert_token_transfers insert_trace_logs insert_failed_transactions fits_block
calm-checkpoint = refl

database-Sound_example : has_block (follow db (calm ∷ []) 1 2 fresh).0.state 3 ≡ true
database-Sound_example =
    database-Sound libs 1 1 2 (calm ∷ []) fresh 3 3 (omega arith) (omega arith) calm-FairRun
      fresh-Sound calm-checkpoint (omega arith) (omega arith)
