-- ===== src/Reorg/Detect.antt =====
-- `detect_fork`: the lazy scan in growing windows against one pass over all the local blocks.
use defi_tx_indexer.Prelude.{
  ℕ, ◌≡◌, refl, subst, ◌⊎◌, ap, inl, inr, Option, none, some, List, [], ◌∷◌, arith, Text, ◌==◌,
  ==_iff, length, take, All, min, Bool-cases, Option-cases,
}
use defi_tx_indexer.Reorg.{
  LocalBlock, scan_window, classify_fork, Fetched, block, absent, failed, ChainHashes, get_hash,
  known, fetch_window,
}

-- The hash that an answer of the node gives.
abbrev pub answer : Fetched → Option Text
answer (block t) = some t
answer absent = none
answer failed = none

module _ (rpc : ℕ → Fetched) where
  -- The chain as the node's answers show it.
  abbrev pub chain_of : ℕ → Option Text
  chain_of h = answer (rpc h)

  -- What is in the map is what the node answered.
  abbrev pub Faithful : ChainHashes → Type 0
  Faithful chain = (h : ℕ) (t : Text) → get_hash chain h ≡ some t → rpc h ≡ block t

  abbrev Knows : ChainHashes → ℕ → Type 0
  Knows chain h = (t : Text) × (get_hash chain h ≡ some t) × (rpc h ≡ block t)

  Faithful-insert :
      (chain : ChainHashes) (k : ℕ) (s : Text)
      → rpc k ≡ block s
      → Faithful chain
      → Faithful ((k, s) ∷ chain)
  unfolding get_hash
  Faithful-insert chain k s e f h t q = elim (Bool-cases (k == h)) [
    | inl same ↦
        let here : k ≡ h = (==_iff k h).0 same in subst (λ n. rpc n ≡ block t) here (ground arith)
    | inr other ↦ f h t (ground arith)
  ]

  Knows-insert :
      (chain : ChainHashes) (k : ℕ) (s : Text) (h : ℕ)
      → get_hash chain k ≡ none
      → Knows chain h
      → Knows ((k, s) ∷ chain) h
  unfolding get_hash
  Knows-insert chain k s h absent_before (t, e, r) = elim (Bool-cases (k == h)) [
    | inl same ↦
        let here : k ≡ h = (==_iff k h).0 same in absurd (ground (arith, ap (get_hash chain) here))
    | inr other ↦ (t, ground arith, r)
  ]

  Knows-new : (chain : ChainHashes) (k : ℕ) (s : Text) → rpc k ≡ block s → Knows ((k, s) ∷ chain) k
  unfolding get_hash
  Knows-new chain k s e = (s, ground arith, e)

  -- From `chain` to `chain'` the map stays faithful, forgets nothing, and comes to know `bs`.
  pub record Grown (chain chain' : ChainHashes) (bs : List LocalBlock) : Type 0 where
    pub faithful : Faithful chain'
    pub keeps : (h : ℕ) → Knows chain h → Knows chain' h
    pub window : All (λ b. Knows chain' b.height) bs

  Grown-seen :
      (b : LocalBlock) (bs : List LocalBlock) (chain chain' : ChainHashes)
      → Knows chain b.height
      → Grown chain chain' bs
      → Grown chain chain' (b ∷ bs)
  Grown-seen b bs chain chain' k g = record {
    faithful = g.faithful;
    keeps = g.keeps;
    window = (g.keeps b.height k, g.window);
  }

  Grown-fetched :
      (b : LocalBlock) (bs : List LocalBlock) (chain chain' : ChainHashes) (s : Text)
      → get_hash chain b.height ≡ none
      → rpc b.height ≡ block s
      → Grown ((b.height, s) ∷ chain) chain' bs
      → Grown chain chain' (b ∷ bs)
  Grown-fetched b bs chain chain' s new r g = record {
    faithful = g.faithful;
    keeps = λ h k. g.keeps h (Knows-insert chain b.height s h new k);
    window = (g.keeps b.height (Knows-new chain b.height s r), g.window);
  }

  fetched_cases : (a : Fetched) → ((s : Text) × (a ≡ block s)) ⊎ ((a ≡ absent) ⊎ (a ≡ failed))
  fetched_cases (block s) = inl (s, refl)
  fetched_cases absent = inr (inl refl)
  fetched_cases failed = inr (inr refl)

  -- What a window that is fetched whole leaves in the map.
  pub fetch_window-Grown :
      (bs : List LocalBlock) (chain chain' : ChainHashes)
      → Faithful chain
      → fetch_window rpc bs chain ≡ known chain'
      → Grown chain chain' bs
  unfolding fetch_window
  fetch_window-Grown [] chain chain' f e =
      let same : chain ≡ chain' = ground arith in
      subst (λ c. Grown chain c []) same (record { faithful = f; keeps = λ h k. k; window = tt })
  fetch_window-Grown (b ∷ bs) chain chain' f e = elim (Option-cases (get_hash chain b.height)) [
    | inr (t, seen) ↦
        Grown-seen b bs chain chain' (t, seen, f b.height t seen)
          (fetch_window-Grown bs chain chain' f (ground arith))
    | inl new ↦ elim (fetched_cases (rpc b.height)) [
      | inl (s, r) ↦ Grown-fetched b bs chain chain' s new r (
          fetch_window-Grown bs ((b.height, s) ∷ chain) chain'
            (Faithful-insert chain b.height s r f) (ground arith))
      | inr missing ↦ ground arith
    ]
  ]

  -- Where every block of the window is answered, the window is fetched whole.
  abbrev pub Answered : LocalBlock → Type 0
  Answered b = (t : Text) × (rpc b.height ≡ block t)

  pub fetch_window-Answered :
      (bs : List LocalBlock) (chain : ChainHashes)
      → All Answered bs
      → (chain' : ChainHashes) × (fetch_window rpc bs chain ≡ known chain')
  unfolding fetch_window
  fetch_window-Answered [] chain h = (chain, refl)
  fetch_window-Answered (b ∷ bs) chain ((t, r), h) = elim (Option-cases (get_hash chain b.height)) [
    | inr (s, seen) ↦ let (chain', e) = fetch_window-Answered bs chain h in (chain', ground arith)
    | inl new ↦
        let (chain', e) = fetch_window-Answered bs ((b.height, t) ∷ chain) h in
        (chain', ground arith)
  ]

  -- On a window that the map knows, the map and the node's answers give the same scan.
  scan_window_same :
      (chain : ChainHashes) (m : Option ℕ) (bs : List LocalBlock)
      → All (λ b. Knows chain b.height) bs
      → scan_window (get_hash chain) m bs ≡ scan_window chain_of m bs
  unfolding scan_window
  scan_window_same chain m [] h = refl
  scan_window_same chain m (b ∷ bs) ((t, e, r), h) =
      ground (arith, scan_window_same chain (some b.height) bs h)

  pub classify_fork_same :
      (chain : ChainHashes) (local : List LocalBlock) (depth : ℕ)
      → All (λ b. Knows chain b.height) (take (min depth (length local)) local)
      → classify_fork local (get_hash chain) depth ≡ classify_fork local chain_of depth
  unfolding classify_fork
  classify_fork_same chain local depth h =
      rw (scan_window_same chain none (take (min depth (length local)) local) h)
