-- ===== src/Reorg/Verdicts.antt =====
-- What each verdict of `classify_fork` says of the blocks.
use defi_tx_indexer.Prelude.{
  ℕ, zero, suc, ◌≤◌, ◌<◌, ◌≡◌, ◌≢◌, refl, sym, subst, ◌↔◌, ap, ◌∙◌, inl, inr, Option, none, some,
  List, [], ◌∷◌, arith, Text, text_eq→eq, ◌==◌, leb, length, take, All, min, Bool-cases,
}
use defi_tx_indexer.Reorg.{
  LocalBlock, ForkScan, no_reorg, fork, inconclusive, need_deeper, settle_mismatch, ScanExit,
  returned, exhausted, scan_window, finish_scan, classify_fork,
}
use defi_tx_indexer.Reorg.Scan.{
  Diverges, ForkAt, verdict, lowest_bad_iff, classify_fork-verdict, scan_window-Diverges,
  scan_window-returned,
}

module _ (chain : ℕ → Option Text) where
  verdict-some : (r : ForkScan) {f : ℕ} → verdict chain r ≡ some f → r ≡ fork f
  verdict-some no_reorg h = cc
  verdict-some (fork g) h = ground arith
  verdict-some inconclusive h = cc
  verdict-some need_deeper h = cc

  scan-All_diverge :
      (m : Option ℕ) (bs : List LocalBlock)
      → All (Diverges chain) bs
      → (m' : Option ℕ) × (scan_window chain m bs ≡ exhausted m')
  unfolding scan_window
  scan-All_diverge m [] h = (m, refl)
  scan-All_diverge m (b ∷ bs) ((t, e, other), ds) =
      let (m', ih) = scan-All_diverge (some b.height) bs ds in
      (m', ground (arith, text_eq→eq t b.hash))

  settle_not_deeper : (m : Option ℕ) → settle_mismatch m ≢ need_deeper
  unfolding settle_mismatch
  settle_not_deeper none = λ e. cc
  settle_not_deeper (some f) = λ e. cc

  deeper_inv :
      (n : ℕ) (bs : List LocalBlock) (len : ℕ) (x : ScanExit)
      → scan_window chain none bs ≡ x
      → finish_scan n len x ≡ need_deeper
      → (n < len) × All (Diverges chain) bs
  unfolding finish_scan
  deeper_inv n bs len (returned r) e h =
      absurd ((scan_window-returned chain none bs [] {r = r} e).0 h)
  deeper_inv n bs len (exhausted m) e h = elim (Bool-cases (leb len n)) [
    | inl whole ↦ absurd (settle_not_deeper m (rw whole at h))
    | inr part ↦ (ground arith, scan_window-Diverges chain none bs {m' = m} e)
  ]

  -- A window asks for more exactly when its blocks all diverge and there are more.
  pub classify_fork-need_deeper_iff :
      (local : List LocalBlock) (depth : ℕ)
      → (classify_fork local chain depth ≡ need_deeper)
        ↔ ((0 < depth) × (depth < length local) × All (Diverges chain) (take depth local))
  unfolding classify_fork
  classify_fork-need_deeper_iff local depth = (asks, needs)
    where
      asks :
          classify_fork local chain depth ≡ need_deeper
          → (0 < depth) × (depth < length local) × All (Diverges chain) (take depth local)
      asks h = elim (Bool-cases (min depth (length local) == 0)) [
        | inl nothing ↦ ground arith
        | inr window ↦
            let (short, ds) =
              deeper_inv (min depth (length local)) (take (min depth (length local)) local)
                (length local) _ refl (rw window at h) in
            let same : min depth (length local) ≡ depth = omega arith in
            (ground arith, omega arith, subst (λ n. All (Diverges chain) (take n local)) same ds)
      ]

      needs :
          (0 < depth) × (depth < length local) × All (Diverges chain) (take depth local)
          → classify_fork local chain depth ≡ need_deeper
      needs (some_depth, short, ds) =
          let same : min depth (length local) ≡ depth = omega arith in
          let (m, e) = scan-All_diverge none (take depth local) ds in
          rw (same, e) (unfold finish_scan in ground arith)

  -- A fork that `classify_fork` reports is the fork point, at every depth.
  pub classify_fork-ForkAt :
      (local : List LocalBlock) (depth f : ℕ)
      → classify_fork local chain depth ≡ fork f
      → ForkAt chain local f
  classify_fork-ForkAt local zero f h = unfold classify_fork in ground arith
  classify_fork-ForkAt local (suc d) f h =
      (lowest_bad_iff chain local f).0
        (classify_fork-verdict chain local (suc d) (omega arith) (λ e. cc) ∙ ap (verdict chain) h)

  -- With the whole of the local blocks in view, the fork point is reported.
  pub ForkAt-classify_fork :
      (local : List LocalBlock) (depth f : ℕ)
      → 1 ≤ depth
      → length local ≤ depth
      → ForkAt chain local f
      → classify_fork local chain depth ≡ fork f
  ForkAt-classify_fork local depth f some_depth whole at =
      verdict-some (classify_fork local chain depth) (
        sym (
          classify_fork-verdict chain local depth some_depth
            (λ e. absurd (omega (arith, ((classify_fork-need_deeper_iff local depth).0 e).1))))
        ∙ (lowest_bad_iff chain local f).1 at)
