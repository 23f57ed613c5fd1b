-- ===== src/Reorg/Depth.antt =====
-- The widening of the scan window.
use defi_tx_indexer.Prelude.{ℕ, ◌*◌, ◌≤◌, ◌<◌, ◌≡◌, min, arith, u64_max}
use defi_tx_indexer.Reorg.{next_scan_depth}

-- Below its limit the depth grows at every step and stays within the limit.
pub next_scan_depth_grows :
    (current limit : ℕ)
    → current < limit
    → (current < next_scan_depth current limit) × (next_scan_depth current limit ≤ limit)
unfolding next_scan_depth
next_scan_depth_grows current limit h = ground arith

-- The next depth is four times the last, at most the limit, and the saturation plays no part.
next_scan_depth_quadruples :
    (current limit : ℕ)
    → 1 ≤ current
    → limit ≤ u64_max
    → next_scan_depth current limit ≡ min (current * 4) limit
unfolding next_scan_depth
next_scan_depth_quadruples current limit h k = ground arith
