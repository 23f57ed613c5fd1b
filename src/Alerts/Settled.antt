-- ===== src/Alerts/Settled.antt =====
-- The scan for pending pairs (`find_pending_alert_matches`) and the claims agree.
use defi_tx_indexer.Prelude.{
  subst, ℕ, ◌+◌, ◌≡◌, refl, sym, ap, ◌∙◌, ◌⊎◌, inl, inr, true, false, none, some, [], ◌∷◌, Text,
  arith, ◌==◌, Bool-cases, Option-cases, pair_eq,
}
use defi_tx_indexer.Alerts.{
  Status, claimed, delivered, failed, Delivery, Ledger, has_key, find_delivery, is_claimable,
  try_claim_alert_match, is_settled, is_pending,
}
use defi_tx_indexer.Alerts.Claims.{upsert_delivery-refused, may_claim, try_claim-1}

pending-find :
    (now subscription_id : ℕ) (tx_hash : Text) (stale_after_secs : ℕ) (ledger : Ledger)
    → is_pending now subscription_id tx_hash stale_after_secs ledger ≡ true
    → (d : Delivery) → find_delivery subscription_id tx_hash ledger ≡ some d
    → is_settled now stale_after_secs d ≡ false
unfolding is_pending find_delivery
pending-find now subscription_id tx_hash stale_after_secs [] h d found = absurd cc
pending-find now subscription_id tx_hash stale_after_secs (x ∷ xs) h d found =
    elim (Bool-cases (has_key subscription_id tx_hash x)) [
      | inl here ↦
          let found' : some x ≡ some d = rw here at found in
          let same : x ≡ d = cc in
          elim (Bool-cases (is_settled now stale_after_secs x)) [
            | inl settled ↦ let bad : false ≡ true = rw (here, settled) at h in absurd cc
            | inr open_ ↦ ap (is_settled now stale_after_secs) (sym same) ∙ open_
          ]
      | inr other ↦
          pending-find now subscription_id tx_hash stale_after_secs xs (rw other at h) d
            (rw other at found)
    ]

find-settled :
    (now subscription_id : ℕ) (tx_hash : Text) (stale_after_secs : ℕ) (ledger : Ledger)
    (d : Delivery)
    → find_delivery subscription_id tx_hash ledger ≡ some d
    → is_settled now stale_after_secs d ≡ true
    → is_pending now subscription_id tx_hash stale_after_secs ledger ≡ false
find-settled now subscription_id tx_hash stale_after_secs ledger d found settled =
    elim (Bool-cases (is_pending now subscription_id tx_hash stale_after_secs ledger)) [
      | inl pending ↦
          absurd
            (cc (pending-find now subscription_id tx_hash stale_after_secs ledger pending d found))
      | inr not_pending ↦ not_pending
    ]

-- The row is a claim that reaches its time limit at this second.
abbrev pub ReachesLimit : ℕ → ℕ → Delivery → Type 0
ReachesLimit now stale_after_secs d = (d.status ≡ claimed) × (d.created_at + stale_after_secs ≡ now)

-- A row that is not settled can be claimed, but at the second at which a claim reaches the limit.
unsettled_claimable :
    (now stale_after_secs : ℕ) (d : Delivery)
    → is_settled now stale_after_secs d ≡ false
    → ((is_claimable now stale_after_secs d ≡ true) × (¬ ReachesLimit now stale_after_secs d))
      ⊎ ((is_claimable now stale_after_secs d ≡ false) × ReachesLimit now stale_after_secs d)
unfolding is_settled is_claimable
unsettled_claimable now stale_after_secs d h = go d.status refl
  where
    go :
        (s : Status)
        → d.status ≡ s
        → ((is_claimable now stale_after_secs d ≡ true) × (¬ ReachesLimit now stale_after_secs d))
          ⊎ ((is_claimable now stale_after_secs d ≡ false) × ReachesLimit now stale_after_secs d)
    go claimed e =
        let h' = rw e at h in
        elim (Bool-cases (d.created_at + stale_after_secs == now)) [
          | inl limit ↦ inr (rw e (ground arith), (e, ground arith))
          | inr before ↦ inl (rw e (ground arith), λ l. ground (arith, l.1))
        ]
    go delivered e = let bad : true ≡ false = rw e at h in absurd cc
    go failed e = inl (rw e refl, λ l. let bad : failed ≡ claimed = sym e ∙ l.0 in absurd cc)

-- A pair that the scan returns and a claim of it at the same time: at the second at which an earlier
-- claim of the pair reaches the time limit the claim is refused, and else it is granted.
pub pending_claim :
    (now subscription_id : ℕ) (tx_hash : Text) (stale_after_secs : ℕ) (ledger : Ledger)
    → is_pending now subscription_id tx_hash stale_after_secs ledger ≡ true
    → (((try_claim_alert_match now subscription_id tx_hash stale_after_secs ledger).1 ≡ true)
        × ((d : Delivery)
            → find_delivery subscription_id tx_hash ledger ≡ some d
            → ¬ ReachesLimit now stale_after_secs d))
      ⊎ (((try_claim_alert_match now subscription_id tx_hash stale_after_secs ledger).1 ≡ false)
          × (d : Delivery) × (find_delivery subscription_id tx_hash ledger ≡ some d)
          × ReachesLimit now stale_after_secs d)
pending_claim now subscription_id tx_hash stale_after_secs ledger pending =
    let same = try_claim-1 now subscription_id tx_hash stale_after_secs ledger in
    elim (Option-cases (find_delivery subscription_id tx_hash ledger)) [
      | inl missing ↦ inl (
        same ∙ rw missing refl,
        λ d found. let bad : none ≡ some d = rw missing at found in absurd cc,
      )
      | inr (d, found) ↦
          elim (unsettled_claimable now stale_after_secs d
            (pending-find now subscription_id tx_hash stale_after_secs ledger pending d found)) [
              | inl (may, before) ↦ inl (
                same ∙ rw found may,
                λ d' found'.
                    let is : some d ≡ some d' = rw found at found' in
                    let d_is : d ≡ d' = cc in
                    subst (λ x. ¬ ReachesLimit now stale_after_secs x) d_is before,
              )
              | inr (wont, limit) ↦ inr (same ∙ rw found wont, d, found, limit)
            ]
    ]

-- A delivered pair is never sent again: every claim of it is refused and leaves the ledger as it
-- is, and no scan returns it.
delivered_final :
    (now subscription_id : ℕ) (tx_hash : Text) (stale_after_secs : ℕ) (ledger : Ledger)
    (d : Delivery)
    → find_delivery subscription_id tx_hash ledger ≡ some d
    → d.status ≡ delivered
    → (try_claim_alert_match now subscription_id tx_hash stale_after_secs ledger ≡ (ledger, false))
      × (is_pending now subscription_id tx_hash stale_after_secs ledger ≡ false)
unfolding try_claim_alert_match
delivered_final now subscription_id tx_hash stale_after_secs ledger d found is_delivered =
    let wont : may_claim now stale_after_secs (find_delivery subscription_id tx_hash ledger)
        ≡ false =
      rw found (unfold is_claimable in rw is_delivered refl) in
    let refused = try_claim-1 now subscription_id tx_hash stale_after_secs ledger ∙ wont in
    (
      pair_eq _ ledger false (upsert_delivery-refused _ _ ledger refused) refused,
      find-settled now subscription_id tx_hash stale_after_secs ledger d found
          (unfold is_settled in rw is_delivered refl),
    )
