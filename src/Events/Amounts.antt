-- ===== src/Events/Amounts.antt =====
-- The flows of a swap.
use defi_tx_indexer.Prelude.{◌≤◌, ◌≡◌, ◌⊎◌, ℤ, pos, negsuc, pos_part, neg_part, ◌+ℤ◌, ◌-ℤ◌, arith}
use defi_tx_indexer.Events.{flows}

-- One token flows into the pool and the other out of it, or not at all.
abbrev AreOpposite : ℤ → ℤ → Type 0
AreOpposite a b =
    ((neg_part a ≡ 0) × (pos_part b ≡ 0)) ⊎ ((pos_part a ≡ 0) × (neg_part b ≡ 0) × (1 ≤ neg_part a))

-- For a first amount of at least 0 and a second of at most 0, or a first below 0 and a second of at
-- least 0: the inflow and the outflow are not negative, and their difference is the sum of the two
-- amounts.
pub flows_balance :
    (a b : ℤ)
    → AreOpposite a b
    → (neg_part (flows a b).0 ≡ 0)
      × (neg_part (flows a b).1 ≡ 0)
      × ((flows a b).0 -ℤ (flows a b).1 ≡ a +ℤ b)
unfolding flows ◌+ℤ◌ ◌-ℤ◌
flows_balance (pos a) (pos b) h = ground arith
flows_balance (pos a) (negsuc b) h = ground arith
flows_balance (negsuc a) (pos b) h = ground arith
flows_balance (negsuc a) (negsuc b) h = ground arith
