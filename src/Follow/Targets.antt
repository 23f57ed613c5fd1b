-- ===== src/Follow/Targets.antt =====
-- What the follow loop may index next.
use defi_tx_indexer.Prelude.{
  ℕ, ◌+◌, ◌-◌, ◌≤◌, ◌<◌, ◌≡◌, none, some, arith, u64_max, ℤ, pos, negsuc, max_zero, min,
}
use defi_tx_indexer.Follow.{next_target, cap_range_to}

-- What is indexed next starts right after the checkpoint, is not empty, and ends `confirmations`
-- below the head.
pub next_target-some :
    (head confirmations from to : ℕ) (c : ℤ)
    → head < u64_max
    → next_target head confirmations (some c) ≡ some (from, to)
    → (from ≡ max_zero c + 1) × (from ≤ to) × (to ≡ head - confirmations)
unfolding next_target
next_target-some head confirmations from to (pos n) h e = ground arith
next_target-some head confirmations from to (negsuc n) h e = ground arith

-- Nothing is indexed exactly when the checkpoint has reached the confirmed head.
pub next_target-none :
    (head confirmations : ℕ) (c : ℤ)
    → head < u64_max
    → (next_target head confirmations (some c) ≡ none → head - confirmations ≤ max_zero c)
      × (head - confirmations ≤ max_zero c → next_target head confirmations (some c) ≡ none)
unfolding next_target
next_target-none head confirmations (pos n) h = (λ e. ground arith, λ e. ground arith)
next_target-none head confirmations (negsuc n) h = (λ e. ground arith, λ e. ground arith)

-- With no checkpoint the follow loop starts at the confirmed head: it does not fill in the past.
next_target_fresh :
    (head confirmations : ℕ)
    → next_target head confirmations none ≡ some (head - confirmations, head - confirmations)
unfolding next_target
next_target_fresh head confirmations = ground arith

-- A cut range starts where the range starts, is not empty, is a part of it, and has as many blocks
-- as the range or the cap, whichever is less, up to the largest `u64`; the cap itself is less.
pub cap_range_to_lem :
    (from to cap_blocks : ℕ)
    → from ≤ to
    → to ≤ u64_max
    → 1 ≤ cap_blocks
    → cap_blocks < u64_max
    → let (from', to') = cap_range_to from to cap_blocks in
      (from' ≡ from) × (from ≤ to') × (to' ≤ to) × (to' + 1 ≡ min (to + 1) (from + cap_blocks))
unfolding cap_range_to
cap_range_to_lem from to cap_blocks h k one small = ground arith
