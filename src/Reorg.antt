-- ===== src/Reorg.antt =====
-- crates/indexer/src/worker.rs: `classify_fork`, `next_scan_depth` and `WorkerPool::detect_fork`.
-- The node's answers are a parameter, one answer for each height: a height is asked at most once.
pub mod Depth
pub mod Scan
pub mod Detect
pub mod Fork
pub mod Verdicts
use defi_tx_indexer.Prelude.{
  ℕ, zero, suc, ◌+◌, min, max, true, false, Option, none, some, List, [], ◌∷◌, Text, text_eq, ◌==◌,
  leb, if◌then◌else◌, length, take, last?, saturating_mul, is_some,
}

-- A row `(u64, String)` of the local blocks, the tip first.
pub record LocalBlock : Type 0 where
  pub height : ℕ
  pub hash : Text

pub data ForkScan : Type 0 where
  no_reorg : ForkScan
  fork : ℕ → ForkScan
  inconclusive : ForkScan
  need_deeper : ForkScan

-- `match last_mismatch`, as it stands twice in `classify_fork`
unfoldable pub settle_mismatch : Option ℕ → ForkScan
settle_mismatch none = no_reorg
settle_mismatch (some f) = fork f

-- The `for` loop of `classify_fork` returns early, or ends with `last_mismatch`.
pub data ScanExit : Type 0 where
  returned : ForkScan → ScanExit
  exhausted : Option ℕ → ScanExit

unfoldable pub scan_window : (ℕ → Option Text) → Option ℕ → List LocalBlock → ScanExit
unfolding settle_mismatch
scan_window chain_hash_at last_mismatch [] = exhausted last_mismatch
scan_window chain_hash_at last_mismatch (b ∷ bs) =
    let rest = scan_window chain_hash_at (some b.height) bs in
    elim (chain_hash_at b.height) [
      | none ↦ returned inconclusive
      | some chain_hash ↦
          if text_eq chain_hash b.hash then returned (settle_mismatch last_mismatch) else rest
    ]

unfoldable pub finish_scan : ℕ → ℕ → ScanExit → ForkScan
unfolding settle_mismatch
finish_scan n len (returned r) = r
finish_scan n len (exhausted m) = if leb len n then settle_mismatch m else need_deeper

unfoldable pub classify_fork : List LocalBlock → (ℕ → Option Text) → ℕ → ForkScan
unfolding scan_window finish_scan
classify_fork local chain_hash_at depth =
    let n = min depth (length local) in
    if n == 0
    then no_reorg
    else finish_scan n (length local) (scan_window chain_hash_at none (take n local))

-- `clamp(low, high)` of an integer, for `low ≤ high`
abbrev pub clamp : ℕ → ℕ → ℕ → ℕ
clamp x low high = min (max x low) high

unfoldable pub next_scan_depth : ℕ → ℕ → ℕ
next_scan_depth current limit =
    if leb limit current then limit else clamp (saturating_mul current 4) (current + 1) limit

-- What `rpc_with_retry(get_block_by_number)` gives: a block with its hash, no block, or an error.
pub data Fetched : Type 0 where
  block : Text → Fetched
  absent : Fetched
  failed : Fetched

-- The `HashMap` of the chain hashes that were asked for.
abbrev pub ChainHashes : Type 0
ChainHashes = List (ℕ × Text)

unfoldable pub get_hash : ChainHashes → ℕ → Option Text
get_hash [] h = none
get_hash ((k, t) ∷ c) h = if k == h then some t else get_hash c h

-- The loop that asks for the hashes of a window: all known, or an answer that is missing.
pub data Window : Type 0 where
  known : ChainHashes → Window
  unsure : Window

module _ (rpc : ℕ → Fetched) where
  unfoldable pub fetch_window : List LocalBlock → ChainHashes → Window
  unfolding get_hash
  fetch_window [] chain = known chain
  fetch_window (b ∷ bs) chain = elim (is_some (get_hash chain b.height)) [
    | true ↦ fetch_window bs chain
    | false ↦ elim (rpc b.height) [
      | block hash ↦ fetch_window bs ((b.height, hash) ∷ chain)
      | absent ↦ unsure
      | failed ↦ unsure
    ]
  ]

  -- `local[len - 1].0`
  unfoldable pub lowest_height : List LocalBlock → Option ℕ
  lowest_height local = elim (last? local) [ none ↦ none | some b ↦ some b.height ]

  -- The body of `loop`; `none` means that the fuel ran out.
  unfoldable pub detect_from : ℕ → List LocalBlock → ChainHashes → ℕ → Option (Option ℕ)
  detect_from zero local chain depth = none
  detect_from (suc fuel) local chain depth =
      elim (fetch_window (take (min depth (length local)) local) chain) [
        | unsure ↦ some none
        | known chain' ↦ elim (classify_fork local (get_hash chain') depth) [
          | no_reorg ↦ some none
          | inconclusive ↦ some none
          | fork f ↦ some (some f)
          | need_deeper ↦
              let next = next_scan_depth depth (length local) in
              let deeper = detect_from fuel local chain' next in
              if next == depth then some (lowest_height local) else deeper
        ]
      ]

  unfoldable pub detect_fork : ℕ → List LocalBlock → Option (Option ℕ)
  unfolding detect_from lowest_height
  detect_fork fuel [] = some none
  detect_fork fuel (b ∷ bs) = detect_from fuel (b ∷ bs) [] 1
