-- ===== src/Reorg/Fork.antt =====
-- What `detect_fork` decides: it ends, and it agrees with one pass over all the local blocks.
use defi_tx_indexer.Prelude.{
  ℕ, zero, suc, ◌+◌, ◌≤◌, ◌<◌, ◌≡◌, ◌≢◌, refl, sym, subst, ◌⊎◌, ap, ◌∙◌, inl, inr, Option, none,
  some, List, [], ◌∷◌, arith, text_eq_refl, length, take, drop, take-append-drop, All,
  All-append_left, min,
}
use defi_tx_indexer.Reorg.{
  LocalBlock, ForkScan, no_reorg, fork, inconclusive, need_deeper, scan_window, classify_fork,
  next_scan_depth, Fetched, block, ChainHashes, get_hash, Window, known, unsure, fetch_window,
  detect_from, detect_fork,
}
use defi_tx_indexer.Reorg.Depth.{next_scan_depth_grows}
use defi_tx_indexer.Reorg.Scan.{ForkAt, lowest_bad, verdict, lowest_bad_iff, classify_fork-verdict}
use defi_tx_indexer.Reorg.Verdicts.{classify_fork-need_deeper_iff}
use defi_tx_indexer.Reorg.Detect.{
  chain_of, Faithful, Grown, fetch_window-Grown, fetch_window-Answered, classify_fork_same,
  Answered,
}

module _ (rpc : ℕ → Fetched) where
  -- The decision is that of the one pass, or it is none and some answer is missing.
  abbrev Decides : List LocalBlock → Option ℕ → Type 0
  Decides local r =
      (r ≡ lowest_bad (chain_of rpc) none local) ⊎ ((r ≡ none) × ¬ All (Answered rpc) local)

  abbrev window_of : List LocalBlock → ℕ → List LocalBlock
  window_of local depth = take (min depth (length local)) local

  All-window :
      (P : LocalBlock → Type 0) (n : ℕ) (local : List LocalBlock)
      → All P local
      → All P (take n local)
  All-window P n local h =
      All-append_left P (take n local) (drop n local)
        (subst (All P) (sym (take-append-drop n local)) h)

  unsure-Decides :
      (local : List LocalBlock) (chain : ChainHashes) (depth : ℕ)
      → fetch_window rpc (window_of local depth) chain ≡ unsure
      → ¬ All (Answered rpc) local
  unsure-Decides local chain depth e answered =
      let (chain', known') =
        fetch_window-Answered rpc (window_of local depth) chain
          (All-window (Answered rpc) _ local answered) in
      cc

  -- A window that asks for more makes the depth grow.
  deeper :
      (local : List LocalBlock) (chain' : ChainHashes) (depth : ℕ)
      → classify_fork local (get_hash chain') depth ≡ need_deeper
      → (depth < next_scan_depth depth (length local))
        × (next_scan_depth depth (length local) ≤ length local)
  deeper local chain' depth e =
      next_scan_depth_grows depth (length local)
        ((classify_fork-need_deeper_iff (get_hash chain') local depth).0 e).1

  scan-cases : (x : ForkScan) → (x ≡ need_deeper) ⊎ (x ≢ need_deeper)
  scan-cases no_reorg = inr (λ e. cc)
  scan-cases (fork f) = inr (λ e. cc)
  scan-cases inconclusive = inr (λ e. cc)
  scan-cases need_deeper = inl refl

  window-cases : (w : Window) → (w ≡ unsure) ⊎ ((c : ChainHashes) × (w ≡ known c))
  window-cases (known c) = inr (c, refl)
  window-cases unsure = inl refl

  -- What one round returns when the window does not ask for more.
  decided :
      (fuel : ℕ) (local : List LocalBlock) (chain chain' : ChainHashes) (depth : ℕ)
      → fetch_window rpc (window_of local depth) chain ≡ known chain'
      → classify_fork local (get_hash chain') depth ≢ need_deeper
      → detect_from rpc (suc fuel) local chain depth
        ≡ some (verdict (get_hash chain') (classify_fork local (get_hash chain') depth))
  unfolding detect_from
  decided fuel local chain chain' depth e settled = ground arith

  next_round :
      (fuel : ℕ) (local : List LocalBlock) (chain chain' : ChainHashes) (depth : ℕ)
      → fetch_window rpc (window_of local depth) chain ≡ known chain'
      → classify_fork local (get_hash chain') depth ≡ need_deeper
      → detect_from rpc (suc fuel) local chain depth
        ≡ detect_from rpc fuel local chain' (next_scan_depth depth (length local))
  unfolding detect_from
  next_round fuel local chain chain' depth e more = ground (arith, deeper local chain' depth more)

  unsure_round :
      (fuel : ℕ) (local : List LocalBlock) (chain : ChainHashes) (depth : ℕ)
      → fetch_window rpc (window_of local depth) chain ≡ unsure
      → detect_from rpc (suc fuel) local chain depth ≡ some none
  unfolding detect_from
  unsure_round fuel local chain depth e = ground arith

  settled-Decides :
      (local : List LocalBlock) (chain chain' : ChainHashes) (depth : ℕ)
      → 1 ≤ depth
      → Grown rpc chain chain' (window_of local depth)
      → classify_fork local (get_hash chain') depth ≢ need_deeper
      → Decides local (verdict (get_hash chain') (classify_fork local (get_hash chain') depth))
  settled-Decides local chain chain' depth pos g settled =
      let same = classify_fork_same rpc chain' local depth g.window in
      inl (
        ap (verdict (get_hash chain')) same
        ∙ sym (classify_fork-verdict (chain_of rpc) local depth pos (rw same at settled)))

  -- The loop ends within its fuel, with the decision of the one pass.
  detect_from-Decides :
      (fuel : ℕ) (local : List LocalBlock) (chain : ChainHashes) (depth : ℕ)
      → 1 ≤ depth
      → depth ≤ length local
      → length local < fuel + depth
      → Faithful rpc chain
      → (r : Option ℕ) × (detect_from rpc fuel local chain depth ≡ some r) × Decides local r
  detect_from-Decides zero local chain depth pos within enough f = absurd (omega arith)
  detect_from-Decides (suc fuel) local chain depth pos within enough f =
      elim (window-cases (fetch_window rpc (window_of local depth) chain)) [
        | inl e ↦ (
          none,
          unsure_round fuel local chain depth e,
          inr (refl, unsure-Decides local chain depth e),
        )
        | inr (chain', e) ↦
            let g = fetch_window-Grown rpc (window_of local depth) chain chain' f e in
            elim (scan-cases (classify_fork local (get_hash chain') depth)) [
              | inr settled ↦ (
                _,
                decided fuel local chain chain' depth e settled,
                settled-Decides local chain chain' depth pos g settled,
              )
              | inl more ↦
                  let (grows, fits) = deeper local chain' depth more in
                  let (r, same, d) =
                    detect_from-Decides fuel local chain' (next_scan_depth depth (length local))
                      (omega arith) fits (omega arith) g.faithful in
                  (r, next_round fuel local chain chain' depth e more ∙ same, d)
            ]
      ]

  detect_fork-Decides :
      (fuel : ℕ) (local : List LocalBlock)
      → length local ≤ fuel
      → (r : Option ℕ) × (detect_fork rpc fuel local ≡ some r) × Decides local r
  unfolding detect_fork
  detect_fork-Decides fuel [] enough = (none, refl, inl (unfold lowest_bad in refl))
  detect_fork-Decides fuel (b ∷ bs) enough =
      detect_from-Decides fuel (b ∷ bs) [] 1 (omega arith) (omega arith) (omega arith)
        (λ h t e. unfold get_hash in cc)

  -- With as much fuel as there are local blocks the search ends, whatever the node answers.
  pub detect_fork_total :
      (fuel : ℕ) (local : List LocalBlock)
      → length local ≤ fuel
      → (r : Option ℕ) × (detect_fork rpc fuel local ≡ some r)
  detect_fork_total fuel local enough =
      let (r, e, d) = detect_fork-Decides fuel local enough in (r, e)

  -- A height is rolled back only if it is the fork point of the chain that the node showed.
  pub detect_fork-ForkAt :
      (fuel : ℕ) (local : List LocalBlock) (f : ℕ)
      → length local ≤ fuel
      → detect_fork rpc fuel local ≡ some (some f)
      → ForkAt (chain_of rpc) local f
  detect_fork-ForkAt fuel local f enough h =
      let (r, e, d) = detect_fork-Decides fuel local enough in
      let found : some r ≡ some (some f) = sym e ∙ h in
      elim d [
        | inl same ↦ (lowest_bad_iff (chain_of rpc) local f).0 (ground arith)
        | inr (nothing, _) ↦ ground arith
      ]

  -- Where the node answers for every local block, the search returns exactly the fork point: none
  -- if the tip agrees, and the lowest divergent height otherwise.
  pub detect_fork-Answered :
      (fuel : ℕ) (local : List LocalBlock)
      → length local ≤ fuel
      → All (Answered rpc) local
      → detect_fork rpc fuel local ≡ some (lowest_bad (chain_of rpc) none local)
  detect_fork-Answered fuel local enough answered =
      let (r, e, d) = detect_fork-Decides fuel local enough in
      elim d [ inl same ↦ e ∙ ap some same | inr (_, missing) ↦ absurd (missing answered) ]

  -- Where the tip agrees, no block is rolled back whatever the node would answer below the tip.
  pub detect_fork_tip_agrees :
      (fuel : ℕ) (tip : LocalBlock) (rest : List LocalBlock)
      → rpc tip.height ≡ block tip.hash
      → detect_fork rpc (suc fuel) (tip ∷ rest) ≡ some none
  unfolding detect_fork detect_from fetch_window classify_fork scan_window get_hash
  detect_fork_tip_agrees fuel tip rest agrees = ground (arith, text_eq_refl tip.hash)

  -- Where the tip cannot be looked up, no block is rolled back.
  detect_fork_tip_unknown :
      (fuel : ℕ) (tip : LocalBlock) (rest : List LocalBlock)
      → chain_of rpc tip.height ≡ none
      → detect_fork rpc (suc fuel) (tip ∷ rest) ≡ some none
  unfolding detect_fork detect_from fetch_window get_hash
  detect_fork_tip_unknown fuel tip rest unknown = ground arith
