-- ===== src/Alerts/Claims.antt =====
-- Who may send an alert: what a claim decides, and what it leaves to the claims behind it.
use defi_tx_indexer.Prelude.{
  ℕ, ◌+◌, ◌<◌, ◌≡◌, refl, sym, subst, ap, ◌∙◌, ◌⊎◌, ◌↔◌, inl, inr, Bool, true, false, Option, none,
  some, [], ◌∷◌, Text, text_eq, text_eq_refl, text_eq→eq, arith, Bool-cases, Option-cases,
}
use defi_tx_indexer.Alerts.{
  Status, claimed, delivered, failed, Delivery, Ledger, has_key, find_delivery, upsert_delivery,
  is_claimable, reclaim, reclaimed, try_claim_alert_match,
}

has_key_refl : (row : Delivery) → has_key row.subscription_id row.tx_hash row ≡ true
unfolding has_key
has_key_refl row = ground (arith, text_eq_refl row.tx_hash)

has_key-same :
    (subscription_id : ℕ) (tx_hash : Text) (d d' : Delivery)
    → d'.subscription_id ≡ d.subscription_id
    → d'.tx_hash ≡ d.tx_hash
    → has_key subscription_id tx_hash d' ≡ has_key subscription_id tx_hash d
unfolding has_key
has_key-same subscription_id tx_hash d d' e f = rw (e, f) refl

-- A row that has the key of another has not the keys that the other has not.
has_key-other :
    (subscription_id : ℕ) (tx_hash : Text) (row d : Delivery)
    → has_key subscription_id tx_hash row ≡ false
    → has_key row.subscription_id row.tx_hash d ≡ true
    → has_key subscription_id tx_hash d ≡ false
unfolding has_key
has_key-other subscription_id tx_hash row d h k =
    let same_id : d.subscription_id ≡ row.subscription_id = ground arith in
    let same_text : text_eq d.tx_hash row.tx_hash ≡ true = ground arith in
    rw (same_id, text_eq→eq d.tx_hash row.tx_hash same_text) h

-- What an upsert leaves for its key: the new row if there was none, else the updated row, else the
-- old one; and whether it had an effect.
abbrev pub updated : Delivery → Option Delivery → Delivery × Bool
updated d none = (d, false)
updated d (some d') = (d', true)

abbrev pub upserted : Delivery → (Delivery → Option Delivery) → Option Delivery → Delivery × Bool
upserted row update none = (row, true)
upserted row update (some d) = updated d (update d)

-- The update keeps the key.
abbrev pub KeepsKey : (Delivery → Option Delivery) → Type 0
KeepsKey update =
    (d d' : Delivery)
    → update d ≡ some d'
    → (d'.subscription_id ≡ d.subscription_id) × (d'.tx_hash ≡ d.tx_hash)

module _ (row : Delivery) (update : Delivery → Option Delivery) where
  pub upsert_delivery-1 :
      (ds : Ledger)
      → (upsert_delivery row update ds).1
        ≡ (upserted row update (find_delivery row.subscription_id row.tx_hash ds)).1
  unfolding upsert_delivery find_delivery
  upsert_delivery-1 [] = refl
  upsert_delivery-1 (d ∷ ds) = elim (Bool-cases (has_key row.subscription_id row.tx_hash d)) [
    | inl here ↦ elim (Option-cases (update d)) [
      | inl refused ↦ rw (here, refused) refl
      | inr (d', done) ↦ rw (here, done) refl
    ]
    | inr other ↦ rw other (upsert_delivery-1 ds)
  ]

  pub upsert_delivery-0 :
      (ds : Ledger)
      → KeepsKey update
      → find_delivery row.subscription_id row.tx_hash (upsert_delivery row update ds).0
        ≡ some (upserted row update (find_delivery row.subscription_id row.tx_hash ds)).0
  unfolding upsert_delivery find_delivery
  upsert_delivery-0 [] keeps = rw (has_key_refl row) refl
  upsert_delivery-0 (d ∷ ds) keeps = elim (Bool-cases (has_key row.subscription_id row.tx_hash d)) [
    | inl here ↦ elim (Option-cases (update d)) [
      | inl refused ↦ rw (here, refused, here) refl
      | inr (d', done) ↦
          let (same_id, same_hash) = keeps d d' done in
          let here' : has_key row.subscription_id row.tx_hash d' ≡ true =
            has_key-same row.subscription_id row.tx_hash d d' same_id same_hash ∙ here in
          rw (here, done, here') refl
    ]
    | inr other ↦ rw (other, other) (upsert_delivery-0 ds keeps)
  ]

  -- An upsert without effect leaves the ledger as it is.
  pub upsert_delivery-refused :
      (ds : Ledger)
      → (upsert_delivery row update ds).1 ≡ false
      → (upsert_delivery row update ds).0 ≡ ds
  unfolding upsert_delivery
  upsert_delivery-refused [] h = absurd cc
  upsert_delivery-refused (d ∷ ds) h =
      elim (Bool-cases (has_key row.subscription_id row.tx_hash d)) [
        | inl here ↦ elim (Option-cases (update d)) [
          | inl refused ↦ rw (here, refused) refl
          | inr (d', done) ↦ let bad : true ≡ false = rw (here, done) at h in absurd cc
        ]
        | inr other ↦ rw other (ap (λ r. d ∷ r) (upsert_delivery-refused ds (rw other at h)))
      ]

  -- An upsert leaves the other keys alone.
  pub upsert_delivery-other :
      (subscription_id : ℕ) (tx_hash : Text) (ds : Ledger)
      → KeepsKey update
      → has_key subscription_id tx_hash row ≡ false
      → find_delivery subscription_id tx_hash (upsert_delivery row update ds).0
        ≡ find_delivery subscription_id tx_hash ds
  unfolding upsert_delivery find_delivery
  upsert_delivery-other subscription_id tx_hash [] keeps h = rw h refl
  upsert_delivery-other subscription_id tx_hash (d ∷ ds) keeps h =
      elim (Bool-cases (has_key row.subscription_id row.tx_hash d)) [
        | inl here ↦ elim (Option-cases (update d)) [
          | inl refused ↦ rw (here, refused) refl
          | inr (d', done) ↦
              let (same_id, same_hash) = keeps d d' done in
              let not_d : has_key subscription_id tx_hash d ≡ false =
                has_key-other subscription_id tx_hash row d h here in
              let not_d' : has_key subscription_id tx_hash d' ≡ false =
                has_key-same subscription_id tx_hash d d' same_id same_hash ∙ not_d in
              rw (here, done, not_d, not_d') refl
        ]
        | inr other ↦ rw (other, upsert_delivery-other subscription_id tx_hash ds keeps h) refl
      ]

-- Whether a claim is granted, by the row of the pair.
abbrev pub may_claim : ℕ → ℕ → Option Delivery → Bool
may_claim now stale_after_secs none = true
may_claim now stale_after_secs (some d) = is_claimable now stale_after_secs d

pub reclaim-some :
    (now stale_after_secs : ℕ) (d : Delivery)
    → is_claimable now stale_after_secs d ≡ true
    → reclaim now stale_after_secs d ≡ some (reclaimed now d)
unfolding reclaim
reclaim-some now stale_after_secs d e = rw e refl

reclaim-none :
    (now stale_after_secs : ℕ) (d : Delivery)
    → is_claimable now stale_after_secs d ≡ false
    → reclaim now stale_after_secs d ≡ none
unfolding reclaim
reclaim-none now stale_after_secs d e = rw e refl

pub reclaim-KeepsKey : (now stale_after_secs : ℕ) → KeepsKey (reclaim now stale_after_secs)
reclaim-KeepsKey now stale_after_secs d d' e =
    elim (Bool-cases (is_claimable now stale_after_secs d)) [
      | inl may ↦
          let same : reclaimed now d ≡ d' = cc (reclaim-some now stale_after_secs d may) in
          (sym (ap (λ x. x.subscription_id) same), sym (ap (λ x. x.tx_hash) same))
      | inr wont ↦ absurd (cc (reclaim-none now stale_after_secs d wont))
    ]

upserted-reclaim :
    (now stale_after_secs : ℕ) (row : Delivery) (o : Option Delivery)
    → (upserted row (reclaim now stale_after_secs) o).1 ≡ may_claim now stale_after_secs o
upserted-reclaim now stale_after_secs row none = refl
upserted-reclaim now stale_after_secs row (some d) =
    elim (Bool-cases (is_claimable now stale_after_secs d)) [
      | inl may ↦ rw (reclaim-some now stale_after_secs d may, may) refl
      | inr wont ↦ rw (reclaim-none now stale_after_secs d wont, wont) refl
    ]

pub try_claim-1 :
    (now subscription_id : ℕ) (tx_hash : Text) (stale_after_secs : ℕ) (ledger : Ledger)
    → (try_claim_alert_match now subscription_id tx_hash stale_after_secs ledger).1
      ≡ may_claim now stale_after_secs (find_delivery subscription_id tx_hash ledger)
unfolding try_claim_alert_match
try_claim-1 now subscription_id tx_hash stale_after_secs ledger =
    upsert_delivery-1 _ _ ledger ∙ upserted-reclaim now stale_after_secs _ _

is_claimable_iff :
    (now stale_after_secs : ℕ) (d : Delivery)
    → (is_claimable now stale_after_secs d ≡ true)
      ↔ ((d.status ≡ failed) ⊎ ((d.status ≡ claimed) × (d.created_at + stale_after_secs < now)))
unfolding is_claimable
is_claimable_iff now stale_after_secs d = go d.status refl
  where
    go :
        (s : Status)
        → d.status ≡ s
        → (is_claimable now stale_after_secs d ≡ true)
          ↔ ((d.status ≡ failed) ⊎ ((d.status ≡ claimed) × (d.created_at + stale_after_secs < now)))
    go claimed e = rw e (ground arith)
    go delivered e = rw e (ground arith)
    go failed e = rw e (ground arith)

-- The claim of a pair is granted exactly when there is no row, the row is a failure, or a claim
-- that is older than the time limit.
pub try_claim_iff :
    (now subscription_id : ℕ) (tx_hash : Text) (stale_after_secs : ℕ) (ledger : Ledger)
    → ((try_claim_alert_match now subscription_id tx_hash stale_after_secs ledger).1 ≡ true) ↔ (
        (find_delivery subscription_id tx_hash ledger ≡ none)
        ⊎ ((d : Delivery) × (find_delivery subscription_id tx_hash ledger ≡ some d)
            × ((d.status ≡ failed)
                ⊎ ((d.status ≡ claimed) × (d.created_at + stale_after_secs < now)))))
try_claim_iff now subscription_id tx_hash stale_after_secs ledger =
    let same = try_claim-1 now subscription_id tx_hash stale_after_secs ledger in
    let by_row = is_claimable_iff now stale_after_secs in
    elim (Option-cases (find_delivery subscription_id tx_hash ledger)) [
      | inl missing ↦ (λ _. inl missing, λ _. same ∙ rw missing refl)
      | inr (d, found) ↦
          let granted : (try_claim_alert_match now subscription_id tx_hash stale_after_secs
                ledger).1
              ≡ is_claimable now stale_after_secs d =
            same ∙ rw found refl in
          (
            λ e. inr (d, found, (by_row d).0 (sym granted ∙ e)),
            λ o. granted ∙ elim o [
              | inl missing ↦ absurd cc
              | inr (d', found', cause) ↦
                  let e : d' ≡ d = cc in
                  (by_row d).1 (
                    subst
                      (λ x.
                        (x.status ≡ failed)
                        ⊎ ((x.status ≡ claimed) × (x.created_at + stale_after_secs < now)))
                      e cause)
            ],
          )
    ]
