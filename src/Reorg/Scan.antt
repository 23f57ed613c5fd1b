-- ===== src/Reorg/Scan.antt =====
-- `classify_fork` against a description of the fork point.
use defi_tx_indexer.Prelude.{
  ℕ, ◌≤◌, ◌≡◌, ◌≢◌, refl, ap, ◌↔◌, ◌⊎◌, inl, inr, ◌∙◌, false, Option, none, some, List, [], ◌∷◌,
  ◌++◌, arith, Text, text_eq, text_eq→eq, text_eq_refl, ◌==◌, leb, if◌then◌else◌, length, take,
  drop, take-append-drop, drop_all, leb→le, subst, All, min, Bool-cases, Option-cases,
}
use defi_tx_indexer.Reorg.{
  LocalBlock, ForkScan, no_reorg, fork, inconclusive, need_deeper, settle_mismatch, ScanExit,
  returned, exhausted, scan_window, finish_scan, classify_fork,
}

module _ (chain : ℕ → Option Text) where
  -- The chain has another hash at the height of the block.
  abbrev pub Diverges : LocalBlock → Type 0
  Diverges b = (t : Text) × (chain b.height ≡ some t) × (t ≢ b.hash)

  -- The chain agrees with the first of the blocks, if there is one.
  abbrev Floor : List LocalBlock → Type 0
  Floor [] = Unit
  Floor (c ∷ cs) = chain c.height ≡ some c.hash

  -- `f` is the lowest height of the run of blocks at the tip that the chain no longer has: all of
  -- them diverge, and the next block agrees or there is none.
  abbrev pub ForkAt : List LocalBlock → ℕ → Type 0
  ForkAt local f =
      (bad : List LocalBlock) × (b : LocalBlock) × (rest : List LocalBlock) × (local
        ≡ bad ++ b ∷ rest)
      × All Diverges bad
      × Diverges b
      × (b.height ≡ f)
      × Floor rest

  -- One pass over all the blocks: the last height that diverges before the first that agrees;
  -- nothing where an answer is missing.
  unfoldable pub lowest_bad : Option ℕ → List LocalBlock → Option ℕ
  lowest_bad m [] = m
  lowest_bad m (b ∷ bs) = elim (chain b.height) [
    | none ↦ none
    | some t ↦ if text_eq t b.hash then m else lowest_bad (some b.height) bs
  ]

  abbrev pub verdict : ForkScan → Option ℕ
  verdict no_reorg = none
  verdict (fork f) = some f
  verdict inconclusive = none
  verdict need_deeper = none

  -- An early return of the loop is the verdict of the one pass, whatever lies behind the window.
  pub scan_window-returned :
      (m : Option ℕ) (bs more : List LocalBlock) {r : ForkScan}
      → scan_window chain m bs ≡ returned r
      → (r ≢ need_deeper) × (lowest_bad m (bs ++ more) ≡ verdict r)
  unfolding scan_window lowest_bad
  scan_window-returned m [] more h = cc
  scan_window-returned m (b ∷ bs) more {r} h =
      ground (arith, scan_window-returned (some b.height) bs more {r = r})

  -- A loop that runs to its end has met divergent blocks only, and hands the last height on.
  scan_window-exhausted :
      (m : Option ℕ) (bs more : List LocalBlock) {m' : Option ℕ}
      → scan_window chain m bs ≡ exhausted m'
      → lowest_bad m (bs ++ more) ≡ lowest_bad m' more
  unfolding scan_window lowest_bad
  scan_window-exhausted m [] more h = ground arith
  scan_window-exhausted m (b ∷ bs) more {m'} h =
      ground (arith, scan_window-exhausted (some b.height) bs more {m' = m'})

  Diverges-of :
      (b : LocalBlock) {t : Text} → chain b.height ≡ some t → text_eq t b.hash ≡ false → Diverges b
  Diverges-of b {t} e n = (t, e, λ same. ground (arith, text_eq_refl b.hash))

  pub scan_window-Diverges :
      (m : Option ℕ) (bs : List LocalBlock) {m' : Option ℕ}
      → scan_window chain m bs ≡ exhausted m'
      → All Diverges bs
  unfolding scan_window
  scan_window-Diverges m [] h = tt
  scan_window-Diverges m (b ∷ bs) {m'} h = elim (Option-cases (chain b.height)) [
    | inl e ↦ ground arith
    | inr (t, e) ↦ elim (Bool-cases (text_eq t b.hash)) [
      | inl same ↦ ground arith
      | inr other ↦
          (Diverges-of b e other, scan_window-Diverges (some b.height) bs {m' = m'} (ground arith))
    ]
  ]

  -- The run of divergent blocks that a verdict of the one pass stands on.
  lowest_bad-ForkAt :
      (m : Option ℕ) (bs : List LocalBlock) {f : ℕ}
      → lowest_bad m bs ≡ some f
      → ((m ≡ some f) × Floor bs) ⊎ ForkAt bs f
  unfolding lowest_bad
  lowest_bad-ForkAt m [] h = inl (h, tt)
  lowest_bad-ForkAt m (b ∷ bs) {f} h = elim (Option-cases (chain b.height)) [
    | inl e ↦ ground arith
    | inr (t, e) ↦ elim (Bool-cases (text_eq t b.hash)) [
      | inl same ↦ inl (ground arith, rw e (ap some (text_eq→eq t b.hash same)))
      | inr other ↦ extend t e other (lowest_bad-ForkAt (some b.height) bs (ground arith))
    ]
  ]
    where
      extend :
          (t : Text)
          → chain b.height ≡ some t
          → text_eq t b.hash ≡ false
          → ((some b.height ≡ some f) × Floor bs) ⊎ ForkAt bs f
          → ((m ≡ some f) × Floor (b ∷ bs)) ⊎ ForkAt (b ∷ bs) f
      extend t e other (inl (at, floor)) =
          inr ([], b, bs, refl, tt, Diverges-of b e other, ground arith, floor)
      extend t e other (inr (bad, c, rest, split, ds, d, at, floor)) =
          inr (b ∷ bad, c, rest, ap (λ l. b ∷ l) split, (Diverges-of b e other, ds), d, at, floor)

  lowest_bad-Diverges :
      (m : Option ℕ) (b : LocalBlock) (bs : List LocalBlock)
      → Diverges b
      → lowest_bad m (b ∷ bs) ≡ lowest_bad (some b.height) bs
  unfolding lowest_bad
  lowest_bad-Diverges m b bs (t, e, other) = ground (arith, text_eq→eq t b.hash)

  lowest_bad-Floor : (m : Option ℕ) (bs : List LocalBlock) → Floor bs → lowest_bad m bs ≡ m
  unfolding lowest_bad
  lowest_bad-Floor m [] h = refl
  lowest_bad-Floor m (c ∷ cs) h = ground (arith, text_eq_refl c.hash)

  lowest_bad_run :
      (m : Option ℕ) (bad : List LocalBlock) (b : LocalBlock) (rest : List LocalBlock)
      → All Diverges bad
      → Diverges b
      → Floor rest
      → lowest_bad m (bad ++ b ∷ rest) ≡ some b.height
  lowest_bad_run m [] b rest _ d floor =
      lowest_bad-Diverges m b rest d ∙ lowest_bad-Floor (some b.height) rest floor
  lowest_bad_run m (c ∷ bad) b rest (dc, ds) d floor =
      lowest_bad-Diverges m c (bad ++ b ∷ rest) dc
      ∙ lowest_bad_run (some c.height) bad b rest ds d floor

  -- The one pass finds exactly the fork points.
  pub lowest_bad_iff :
      (local : List LocalBlock) (f : ℕ) → (lowest_bad none local ≡ some f) ↔ ForkAt local f
  lowest_bad_iff local f = (found, finds)
    where
      found : lowest_bad none local ≡ some f → ForkAt local f
      found h = elim (lowest_bad-ForkAt none local h) [ inl (e, _) ↦ cc | inr at ↦ at ]

      finds : ForkAt local f → lowest_bad none local ≡ some f
      finds (bad, b, rest, split, ds, d, at, floor) =
          rw split (lowest_bad_run none bad b rest ds d floor ∙ ap some at)

  verdict-settle_mismatch : (m : Option ℕ) → lowest_bad m [] ≡ verdict (settle_mismatch m)
  unfolding lowest_bad settle_mismatch
  verdict-settle_mismatch none = refl
  verdict-settle_mismatch (some f) = refl

  -- The verdict of the window of the first `n` blocks, unless it asks for more.
  window_verdict :
      (local : List LocalBlock) (n : ℕ) (x : ScanExit)
      → scan_window chain none (take n local) ≡ x
      → finish_scan n (length local) x ≢ need_deeper
      → lowest_bad none local ≡ verdict (finish_scan n (length local) x)
  unfolding finish_scan
  window_verdict local n (returned r) e settled =
      subst (λ l. lowest_bad none l ≡ verdict r) (take-append-drop n local)
        (scan_window-returned none (take n local) (drop n local) {r = r} e).1
  window_verdict local n (exhausted m) e settled = elim (Bool-cases (leb (length local) n)) [
    | inl whole ↦
        subst (λ l. lowest_bad none l ≡ verdict (finish_scan n (length local) (exhausted m)))
          (take-append-drop n local)
          (scan_window-exhausted none (take n local) (drop n local) {m' = m} e
            ∙ rw (drop_all n local (leb→le _ _ whole), whole) (verdict-settle_mismatch m))
    | inr part ↦ absurd (settled (rw part))
  ]

  -- Any verdict but `need_deeper` is that of the one pass over all the blocks.
  pub classify_fork-verdict :
      (local : List LocalBlock) (depth : ℕ)
      → 1 ≤ depth
      → classify_fork local chain depth ≢ need_deeper
      → lowest_bad none local ≡ verdict (classify_fork local chain depth)
  unfolding classify_fork
  classify_fork-verdict [] depth h settled = unfold lowest_bad in ground arith
  classify_fork-verdict (b ∷ bs) depth h settled =
      let local = b ∷ bs in
      let n = min depth (length local) in
      let e : (n == 0) ≡ false = ground arith in
      rw e (window_verdict local n (scan_window chain none (take n local)) refl (rw e at settled))
