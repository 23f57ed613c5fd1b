-- ===== src/Alerts/Exclusive.antt =====
-- One worker at a time: the claims of a pair that follow a granted one, and the scan for pairs.
use defi_tx_indexer.Prelude.{
  ℕ, ◌+◌, ◌≤◌, ◌≡◌, refl, sym, ◌∙◌, inl, inr, true, false, some, List, [], ◌∷◌, Text, if◌then◌else◌,
  arith, Bool-cases, Option-cases, All, All-map, pair_eq,
}
use defi_tx_indexer.Alerts.{
  claimed, Delivery, Ledger, find_delivery, is_claimable, reclaimed, claim_row,
  try_claim_alert_match,
}
use defi_tx_indexer.Alerts.Claims.{
  upsert_delivery-0, upsert_delivery-refused, may_claim, try_claim-1, reclaim-KeepsKey,
  reclaim-some,
}

module _ (subscription_id : ℕ) (tx_hash : Text) (stale_after_secs : ℕ) where
  -- The row of the pair is a claim made at a time.
  pub ClaimedAt : ℕ → Ledger → Type 0
  ClaimedAt now ledger =
      (d : Delivery) × (find_delivery subscription_id tx_hash ledger ≡ some d)
      × (d.status ≡ claimed)
      × (d.created_at ≡ now)

  pub try_claim-ClaimedAt :
      (now : ℕ) (ledger : Ledger)
      → (try_claim_alert_match now subscription_id tx_hash stale_after_secs ledger).1 ≡ true
      → ClaimedAt now (try_claim_alert_match now subscription_id tx_hash stale_after_secs ledger).0
  unfolding ClaimedAt try_claim_alert_match
  try_claim-ClaimedAt now ledger granted =
      let may : may_claim now stale_after_secs (find_delivery subscription_id tx_hash ledger)
          ≡ true =
        sym (try_claim-1 now subscription_id tx_hash stale_after_secs ledger) ∙ granted in
      let after = upsert_delivery-0 _ _ ledger (reclaim-KeepsKey now stale_after_secs) in
      elim (Option-cases (find_delivery subscription_id tx_hash ledger)) [
        | inl missing ↦ (claim_row now subscription_id tx_hash, after ∙ rw missing refl, refl, refl)
        | inr (d, found) ↦
            let may' : is_claimable now stale_after_secs d ≡ true = rw found at may in
            (
              reclaimed now d,
              after ∙ rw (found, reclaim-some now stale_after_secs d may') refl,
              refl,
              refl,
            )
      ]

  claim_refused :
      (t now : ℕ) (ledger : Ledger)
      → ClaimedAt t ledger
      → now ≤ t + stale_after_secs
      → try_claim_alert_match now subscription_id tx_hash stale_after_secs ledger ≡ (ledger, false)
  unfolding ClaimedAt try_claim_alert_match
  claim_refused t now ledger (d, found, is_claimed, at) fresh =
      let wont : may_claim now stale_after_secs (find_delivery subscription_id tx_hash ledger)
          ≡ false =
        rw found (unfold is_claimable in rw is_claimed (ground arith)) in
      let refused = try_claim-1 now subscription_id tx_hash stale_after_secs ledger ∙ wont in
      pair_eq _ ledger false (upsert_delivery-refused _ _ ledger refused) refused

  -- The claims of a pair at the times given, and how many of them are granted.
  pub claim_at_all : List ℕ → Ledger → Ledger × ℕ
  claim_at_all [] ledger = (ledger, 0)
  claim_at_all (now ∷ times) ledger =
      let (ledger', granted) =
        try_claim_alert_match now subscription_id tx_hash stale_after_secs ledger in
      let (last, n) = claim_at_all times ledger' in (last, if granted then n + 1 else n)

  All-refused :
      (t : ℕ) (times : List ℕ) (ledger : Ledger)
      → ClaimedAt t ledger
      → All (λ now. now ≤ t + stale_after_secs) times
      → (claim_at_all times ledger).1 ≡ 0
  unfolding claim_at_all
  All-refused t [] ledger held fresh = refl
  All-refused t (now ∷ times) ledger held (fresh, later) =
      rw (claim_refused t now ledger held fresh) (All-refused t times ledger held later)

  -- Of all the claims of a pair within one time limit, from any ledger and in any order, at most
  -- one is granted.
  pub claims_exclusive :
      (start : ℕ) (times : List ℕ) (ledger : Ledger)
      → All (λ now. (start ≤ now) × (now ≤ start + stale_after_secs)) times
      → (claim_at_all times ledger).1 ≤ 1
  unfolding claim_at_all
  claims_exclusive start [] ledger within = omega arith
  claims_exclusive start (now ∷ times) ledger ((from, to), later) =
      elim (Bool-cases
        (try_claim_alert_match now subscription_id tx_hash stale_after_secs ledger).1) [
          | inl granted ↦
              let none_after = All-refused now times _ (try_claim-ClaimedAt now ledger granted) (
                All-map _ (λ t. t ≤ now + stale_after_secs) (λ t h. omega (arith, h.1)) times
                  later) in
              rw granted (omega (arith, none_after))
          | inr refused ↦ rw refused (claims_exclusive start times _ later)
        ]
