-- ===== src/Alerts/Sent.antt =====
-- What `dispatch_item` sends, and what it leaves in the ledger.
use defi_tx_indexer.Prelude.{
  ℕ, ◌≡◌, ◌≢◌, refl, sym, ap, ◌∙◌, ◌⊎◌, inl, inr, Bool, true, false, Option, none, some, List, [],
  ◌∷◌, Text, Bool-cases, Option-cases,
}
use defi_tx_indexer.Validators.{UnsafeUrlReason, webhook_url_is_safe}
use defi_tx_indexer.Alerts.{
  Delivery, Ledger, find_delivery, try_claim_alert_match, record_alert_delivery, record_row,
  rerecord, status_of,
}
use defi_tx_indexer.Alerts.Claims.{KeepsKey, upserted, upsert_delivery-0, upsert_delivery-refused}
use defi_tx_indexer.Alerts.Dispatch.{
  AlertMatch, Post, Answer, success, error, DispatchOutcome, delivered, failed, unsafe_url,
  claim_skipped, is_delivered, claim_stale_after_secs, World, Dispatched, Externals, settle,
  build_post, after_post, with_key, with_url, with_claim, dispatch_item,
}

-- The recorded outcome is the status of the row.
record_alert_delivery-find :
    (now subscription_id : ℕ) (tx_hash : Text) (good : Bool) (last_error : Option Text)
    (ledger : Ledger)
    → (d : Delivery) × (find_delivery subscription_id tx_hash
          (record_alert_delivery now subscription_id tx_hash good last_error ledger)
        ≡ some d)
      × (d.status ≡ status_of good)
      × (d.last_error ≡ last_error)
unfolding record_alert_delivery
record_alert_delivery-find now subscription_id tx_hash good last_error ledger =
    let row : Delivery = record_row now subscription_id tx_hash good last_error in
    let update : Delivery → Option Delivery = λ d. some (rerecord now good last_error d) in
    let keeps : KeepsKey update = λ d d' e.
      let same : rerecord now good last_error d ≡ d' = cc in
      (
        unfold rerecord in sym (ap (λ x. x.subscription_id) same),
        unfold rerecord in sym (ap (λ x. x.tx_hash) same),
      ) in
    let after = upsert_delivery-0 row update ledger keeps in
    elim (Option-cases (find_delivery subscription_id tx_hash ledger)) [
      | inl missing ↦ (row, after ∙ ap (λ o. some (upserted row update o).0) missing, refl, refl)
      | inr (d, found) ↦ (
        rerecord now good last_error d,
        after ∙ ap (λ o. some (upserted row update o).0) found,
        unfold rerecord in refl,
        unfold rerecord in refl,
      )
    ]

module _ (ext : Externals) (world : World) (item : AlertMatch) where
  open ext use {parse_url, parse_ip, decode_hex, sign_payload, payload_json}

  settle-posts :
      (posts : List Post) (good : Bool) (e : Option Text) (o : DispatchOutcome) (ledger : Ledger)
      → (settle ext world item posts good e o ledger).posts ≡ posts
  unfolding settle
  settle-posts posts good e o ledger = elim (Bool-cases world.record_ok) [
    | inl up ↦ rw up refl
    | inr down ↦ rw down refl
  ]

  pub after_post-posts :
      (post : Post) (a : Answer) (ledger : Ledger)
      → (after_post ext world item post a ledger).posts ≡ post ∷ []
  unfolding after_post
  after_post-posts post success ledger = settle-posts _ _ _ _ ledger
  after_post-posts post (error e) ledger = settle-posts _ _ _ _ ledger

  with_key-posts :
      (o : Option (List ℕ)) (ledger : Ledger)
      → ((with_key ext world item o ledger).posts ≡ [])
        ⊎ ((key : List ℕ) × (o ≡ some key)
            × ((with_key ext world item o ledger).posts ≡ build_post ext item key ∷ []))
  unfolding with_key
  with_key-posts none ledger = inl (settle-posts _ _ _ _ ledger)
  with_key-posts (some key) ledger = inr (key, refl, after_post-posts _ _ ledger)

  with_url-posts :
      (o : Option UnsafeUrlReason) (ledger : Ledger)
      → ((with_url ext world item o ledger).posts ≡ [])
        ⊎ ((key : List ℕ) × (o ≡ none)
            × (decode_hex item.signing_secret ≡ some key)
            × ((with_url ext world item o ledger).posts ≡ build_post ext item key ∷ []))
  unfolding with_url
  with_url-posts (some reason) ledger = inl (settle-posts _ _ _ _ ledger)
  with_url-posts none ledger = elim (with_key-posts (decode_hex item.signing_secret) ledger) [
    | inl silent ↦ inl silent
    | inr (key, decoded, sent) ↦ inr (key, refl, decoded, sent)
  ]

  with_claim-posts :
      (claim : Ledger × Bool)
      → ((with_claim ext world item claim).posts ≡ [])
        ⊎ ((key : List ℕ) × (claim.1 ≡ true)
            × (webhook_url_is_safe parse_url parse_ip item.webhook_url ≡ none)
            × (decode_hex item.signing_secret ≡ some key)
            × ((with_claim ext world item claim).posts ≡ build_post ext item key ∷ []))
  unfolding with_claim
  with_claim-posts (ledger, false) = inl refl
  with_claim-posts (ledger, true) =
      elim (with_url-posts (webhook_url_is_safe parse_url parse_ip item.webhook_url) ledger) [
        | inl silent ↦ inl silent
        | inr (key, safe, decoded, sent) ↦ inr (key, refl, safe, decoded, sent)
      ]

  dispatch_item-posts :
      (ledger : Ledger)
      → ((dispatch_item ext world item ledger).posts ≡ [])
        ⊎ ((key : List ℕ) × ((try_claim_alert_match world.claim_at item.subscription_id item.tx_hash
                claim_stale_after_secs ledger).1
              ≡ true)
            × (webhook_url_is_safe parse_url parse_ip item.webhook_url ≡ none)
            × (decode_hex item.signing_secret ≡ some key)
            × ((dispatch_item ext world item ledger).posts ≡ build_post ext item key ∷ []))
  unfolding dispatch_item
  dispatch_item-posts ledger = elim (Bool-cases world.claim_ok) [
    | inr down ↦ rw down (inl refl)
    | inl up ↦ rw up (
        with_claim-posts (
          try_claim_alert_match world.claim_at item.subscription_id item.tx_hash
            claim_stale_after_secs ledger))
  ]

  -- A request is sent only behind a granted claim, to a URL that is accepted, with a key that
  -- decodes; it is one request, to the URL of the match, and its signature is that of its body under
  -- the decoded key.
  pub dispatch_item_posts :
      (ledger : Ledger)
      → ((dispatch_item ext world item ledger).posts ≡ [])
        ⊎ ((key : List ℕ) × (post : Post) × ((try_claim_alert_match world.claim_at
                item.subscription_id item.tx_hash claim_stale_after_secs ledger).1
              ≡ true)
            × (webhook_url_is_safe parse_url parse_ip item.webhook_url ≡ none)
            × (decode_hex item.signing_secret ≡ some key)
            × ((dispatch_item ext world item ledger).posts ≡ post ∷ [])
            × (post.url ≡ item.webhook_url)
            × (post.body ≡ payload_json item.subscription_id item.tx_hash)
            × (post.signature_hex ≡ sign_payload key post.body))
  unfolding build_post
  dispatch_item_posts ledger = elim (dispatch_item-posts ledger) [
    | inl silent ↦ inl silent
    | inr (key, granted, safe, decoded, sent) ↦
        inr (key, build_post ext item key, granted, safe, decoded, sent, refl, refl, refl)
  ]

  -- Behind a granted claim: the outcome is recorded in the row of the pair, or the database fails and
  -- the claim stays.
  abbrev pub Recorded : Ledger → Dispatched → Type 0
  Recorded claim r =
      ((world.record_ok ≡ true)
        × (o : DispatchOutcome) × (r.outcome ≡ some o)
        × (o ≢ claim_skipped)
        × (d : Delivery) × (find_delivery item.subscription_id item.tx_hash r.ledger ≡ some d)
        × (d.status ≡ status_of (is_delivered o)))
      ⊎ ((world.record_ok ≡ false) × (r.outcome ≡ none) × (r.ledger ≡ claim))

  settle-Recorded :
      (posts : List Post) (good : Bool) (e : Option Text) (o : DispatchOutcome) (ledger : Ledger)
      → is_delivered o ≡ good
      → o ≢ claim_skipped
      → Recorded ledger (settle ext world item posts good e o ledger)
  unfolding settle
  settle-Recorded posts good e o ledger same sent = elim (Bool-cases world.record_ok) [
    | inl up ↦
        let (d, found, status, _) =
          record_alert_delivery-find world.record_at item.subscription_id item.tx_hash good e
            ledger in
        rw up (inl (refl, o, refl, sent, d, found, status ∙ ap status_of (sym same)))
    | inr down ↦ rw down (inr (refl, refl, refl))
  ]

  with_key-Recorded :
      (o : Option (List ℕ)) (ledger : Ledger) → Recorded ledger (with_key ext world item o ledger)
  unfolding with_key after_post
  with_key-Recorded none ledger =
      settle-Recorded _ _ _ failed ledger (unfold is_delivered in refl) (λ e. cc)
  with_key-Recorded (some key) ledger = go (world.receiver (build_post ext item key))
    where
      go :
          (a : Answer)
          → Recorded ledger (after_post ext world item (build_post ext item key) a ledger)
      go success = settle-Recorded _ _ _ delivered ledger (unfold is_delivered in refl) (λ e. cc)
      go (error e) = settle-Recorded _ _ _ failed ledger (unfold is_delivered in refl) (λ e. cc)

  with_url-Recorded :
      (o : Option UnsafeUrlReason) (ledger : Ledger)
      → Recorded ledger (with_url ext world item o ledger)
  unfolding with_url
  with_url-Recorded (some reason) ledger =
      settle-Recorded _ _ _ unsafe_url ledger (unfold is_delivered in refl) (λ e. cc)
  with_url-Recorded none ledger = with_key-Recorded (decode_hex item.signing_secret) ledger

  -- What a run comes to when the database answers the claim.
  abbrev pub IsOutcomeOf : Ledger × Bool → Ledger → Dispatched → Type 0
  IsOutcomeOf claim before r =
      ((claim.1 ≡ false) × (r.outcome ≡ some claim_skipped) × (r.ledger ≡ before) × (r.posts ≡ []))
      ⊎ ((claim.1 ≡ true) × Recorded claim.0 r)

  with_claim-IsOutcomeOf :
      (before : Ledger) (claim : Ledger × Bool)
      → (claim.1 ≡ false → claim.0 ≡ before)
      → IsOutcomeOf claim before (with_claim ext world item claim)
  unfolding with_claim
  with_claim-IsOutcomeOf before (ledger, false) kept = inl (refl, refl, kept refl, refl)
  with_claim-IsOutcomeOf before (ledger, true) kept = inr (refl, with_url-Recorded _ ledger)

  -- The claim of a run: the ledger behind it, and whether it is granted.
  abbrev pub claim_of : Ledger → Ledger × Bool
  claim_of ledger =
      try_claim_alert_match world.claim_at item.subscription_id item.tx_hash claim_stale_after_secs
        ledger

  -- What `dispatch_item` returns. If the database does not answer the claim: an error, nothing was
  -- sent, and the ledger is as before. If the claim is refused: `ClaimSkipped`, nothing was sent, and
  -- the ledger is as before. If it is granted and the database takes the record: another outcome, and
  -- the row of the pair is delivered for `Delivered` and failed for the other two. If it is granted
  -- and the database fails then: an error, and the claim stays in the ledger.
  pub dispatch_item_agrees :
      (ledger : Ledger)
      → ((world.claim_ok ≡ false)
          × ((dispatch_item ext world item ledger).outcome ≡ none)
          × ((dispatch_item ext world item ledger).ledger ≡ ledger)
          × ((dispatch_item ext world item ledger).posts ≡ []))
        ⊎ ((world.claim_ok ≡ true)
            × IsOutcomeOf (claim_of ledger) ledger (dispatch_item ext world item ledger))
  unfolding dispatch_item try_claim_alert_match
  dispatch_item_agrees ledger = elim (Bool-cases world.claim_ok) [
    | inr down ↦ rw down (inl (refl, refl, refl, refl))
    | inl up ↦
        rw up (inr (refl, with_claim-IsOutcomeOf ledger _ (upsert_delivery-refused _ _ ledger)))
  ]
