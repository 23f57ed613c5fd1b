-- ===== src/Follow.antt =====
-- crates/indexer/src/worker.rs: the pure decisions of the follow loop (`next_target`, `cap_range_to`).
pub mod Targets
pub mod BlockStore
pub mod Ranges
pub mod Chunks
pub mod Turns
pub mod Indexed
pub mod Cycle
pub mod Safety
pub mod Progress
pub mod Recovery
use defi_tx_indexer.Prelude.{
  ℕ, ◌-◌, Option, none, some, ltb, leb, ◌==◌, ◌||◌, if◌then◌else◌, saturating_add, ℤ, max_zero,
}

unfoldable pub cap_range_to : ℕ → ℕ → ℕ → ℕ × ℕ
cap_range_to from to cap_blocks =
    if cap_blocks == 0 || ltb to from
    then (from, to)
    else let span = saturating_add (to - from) 1 in
      if leb span cap_blocks then (from, to) else (from, saturating_add from cap_blocks - 1)

-- `resume` of `next_target`
resume_at : ℕ → Option ℤ → ℕ
resume_at safe none = safe
resume_at safe (some c) = saturating_add (max_zero c) 1

unfoldable pub next_target : ℕ → ℕ → Option ℤ → Option (ℕ × ℕ)
unfolding resume_at
next_target head confirmations last_checkpoint =
    let safe = head - confirmations in
    let resume = resume_at safe last_checkpoint in
    if ltb safe resume then none else some (resume, safe)

abbrev pub reorg_scan_cap : ℕ
reorg_scan_cap = 4096

abbrev pub follow_cycle_block_cap : ℕ
follow_cycle_block_cap = 500
