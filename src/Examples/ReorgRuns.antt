-- ===== src/Examples/ReorgRuns.antt =====
-- crates/indexer/src/worker.rs: the search for the fork over three local blocks.
use defi_tx_indexer.Prelude.{
  ℕ, ◌≡◌, refl, Option, none, some, List, [], ◌∷◌, codes, arith, if◌then◌else◌, ◌==◌, text_eq, All,
}
use defi_tx_indexer.Reorg.{
  LocalBlock, Fetched, block, detect_fork, detect_from, fetch_window, lowest_height, classify_fork,
  scan_window, finish_scan, get_hash, settle_mismatch, next_scan_depth,
}
use defi_tx_indexer.Reorg.Scan.{ForkAt, lowest_bad}
use defi_tx_indexer.Reorg.Detect.{chain_of, Answered}
use defi_tx_indexer.Reorg.Fork.{detect_fork_total, detect_fork-ForkAt, detect_fork-Answered}

abbrev three : List LocalBlock
three =
    record { height = 9; hash = codes "c" }
    ∷ record { height = 8; hash = codes "b" }
    ∷ record { height = 7; hash = codes "a" }
    ∷ []

-- The node agrees at height 7 only.
abbrev changed : ℕ → Fetched
changed h = if h == 7 then block (codes "a") else block (codes "x")

three-forked : detect_fork changed 3 three ≡ some (some 8)
unfolding detect_fork detect_from lowest_height fetch_window classify_fork scan_window finish_scan
    get_hash settle_mismatch next_scan_depth text_eq
three-forked = refl

detect_fork-ForkAt_example : ForkAt (chain_of changed) three 8
detect_fork-ForkAt_example = detect_fork-ForkAt changed 3 three 8 (omega arith) three-forked

detect_fork_total_example : (r : Option ℕ) × (detect_fork changed 3 three ≡ some r)
detect_fork_total_example = detect_fork_total changed 3 three (omega arith)

three-Answered : All (Answered changed) three
three-Answered = ((codes "x", refl), ((codes "x", refl), ((codes "a", refl), tt)))

detect_fork-Answered_example :
    detect_fork changed 3 three ≡ some (lowest_bad (chain_of changed) none three)
detect_fork-Answered_example = detect_fork-Answered changed 3 three (omega arith) three-Answered
