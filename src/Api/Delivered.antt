-- ===== src/Api/Delivered.antt =====
-- The dispatcher on the subscriptions that the API has let in: routes/alerts.rs of crates/api with
-- find_pending_alert_matches of crates/db/src/queries.rs and dispatch_item of crates/indexer/src/alerts.rs.
use defi_tx_indexer.Prelude.{
  ℕ, ◌<◌, ◌≡◌, refl, ap, ◌∙◌, inl, inr, Bool, true, false, Option, none, some, List, [], ◌∷◌, Text,
  text_leb, All, All-get, All-take, get_elem?, Bool-cases,
}
use defi_tx_indexer.Db.Rows.{FailedTransaction, Transaction, Tables}
use defi_tx_indexer.Validators.{webhook_url_is_safe}
use defi_tx_indexer.Alerts.{Ledger, try_claim_alert_match}
use defi_tx_indexer.Alerts.Dispatch.{
  AlertMatch, World, Post, Answer, success, error, DispatchOutcome, claim_stale_after_secs, settle,
  build_post, after_post, with_key, with_url, with_claim, dispatch_item,
}
use defi_tx_indexer.Alerts.Sent.{after_post-posts}
use defi_tx_indexer.Alerts.Subscriptions.{AlertSubscription}
use defi_tx_indexer.Alerts.Matches.{
  match_of, insert_match, is_match, matches_of, all_matches, find_pending_alert_matches,
}
use defi_tx_indexer.Api.Subscriptions.{Externals, Call, serve_all}
use defi_tx_indexer.Api.Sound.{IsBytes, IsSecret, IsRow}
use defi_tx_indexer.Api.Checked.{HasBytes}
use defi_tx_indexer.Api.Kept.{serve_all-IsTable}

insert_match-All {κ} :
    (P : AlertMatch → Type κ) (m : AlertMatch) (ms : List AlertMatch)
    → P m
    → All P ms
    → All P (insert_match m ms)
unfolding insert_match
insert_match-All P m [] p h = (p, tt)
insert_match-All P m (n ∷ ns) p h = elim (Bool-cases (text_leb m.tx_hash n.tx_hash)) [
  | inl first ↦ rw first (p, h)
  | inr later ↦ rw later (h.0, insert_match-All P m ns p h.1)
]

module _ (ext : Externals) (decode_hex : Text → Option (List ℕ))
    (sign_payload : List ℕ → Text → Text) (payload_json : ℕ → Text → Text) where
  -- The dispatcher's libraries: it has the URL parsers of the API.
  abbrev pub dispatcher : defi_tx_indexer.Alerts.Dispatch.Externals
  dispatcher = record {
    parse_url = ext.parse_url;
    parse_ip = ext.parse_ip;
    decode_hex = decode_hex;
    sign_payload = sign_payload;
    payload_json = payload_json;
  }

  -- A match that can be sent.
  abbrev IsSendable : AlertMatch → Type 0
  IsSendable m =
      (webhook_url_is_safe ext.parse_url ext.parse_ip m.webhook_url ≡ none)
      × IsSecret ext m.signing_secret

  module _ (now stale_after_secs : ℕ) (transactions : List Transaction) (ledger : Ledger) where
    matches_of-IsSendable :
        (s : AlertSubscription) (fs : List FailedTransaction) (ms : List AlertMatch)
        → IsRow ext s
        → All IsSendable ms
        → All IsSendable (matches_of now stale_after_secs transactions ledger s fs ms)
    unfolding matches_of
    matches_of-IsSendable s [] ms row h = h
    matches_of-IsSendable s (f ∷ fs) ms row h =
        elim (Bool-cases (is_match now stale_after_secs transactions ledger s f)) [
          | inl found ↦ rw found (
              insert_match-All IsSendable (match_of s f.tx_hash) _ (row.safe, row.secret)
                (matches_of-IsSendable s fs ms row h))
          | inr other ↦ rw other (matches_of-IsSendable s fs ms row h)
        ]

    all_matches-IsSendable :
        (ss : List AlertSubscription) (fs : List FailedTransaction)
        → All (IsRow ext) ss
        → All IsSendable (all_matches now stale_after_secs transactions ledger ss fs)
    unfolding all_matches
    all_matches-IsSendable [] fs h = tt
    all_matches-IsSendable (s ∷ ss) fs h =
        matches_of-IsSendable s fs _ h.0 (all_matches-IsSendable ss fs h.1)

  with_claim-sent :
      (world : World) (m : AlertMatch) (claim : Ledger × Bool) (key : List ℕ)
      → claim.1 ≡ true
      → webhook_url_is_safe ext.parse_url ext.parse_ip m.webhook_url ≡ none
      → decode_hex m.signing_secret ≡ some key
      → (with_claim dispatcher world m claim).posts ≡ build_post dispatcher m key ∷ []
  unfolding with_claim with_url with_key
  with_claim-sent world m (ledger, false) key granted safe decoded = absurd cc
  with_claim-sent world m (ledger, true) key granted safe decoded =
      rw (safe, decoded) (after_post-posts dispatcher world m _ _ ledger)

  dispatch_item-sent :
      (world : World) (m : AlertMatch) (ledger : Ledger) (key : List ℕ)
      → world.claim_ok ≡ true
      → (try_claim_alert_match world.claim_at m.subscription_id m.tx_hash claim_stale_after_secs
          ledger).1
        ≡ true
      → webhook_url_is_safe ext.parse_url ext.parse_ip m.webhook_url ≡ none
      → decode_hex m.signing_secret ≡ some key
      → (dispatch_item dispatcher world m ledger).posts ≡ build_post dispatcher m key ∷ []
  unfolding dispatch_item
  dispatch_item-sent world m ledger key up granted safe decoded =
      rw up (with_claim-sent world m _ key granted safe decoded)

  -- Whatever calls the API has served on an empty table, every match that a scan then returns is
  -- sent by dispatch_item in every run in which the database answers the claim and grants it: it is
  -- one request, to the URL of the match, whose signature is that of its body under a key of 32 bytes
  -- that the signing secret of the match encodes. The random bytes of a call, if there are any, are 32
  -- numbers below 256, and the decoding of hex reads back the encoding of such numbers.
  pub pending_sent :
      ((bytes : List ℕ) → All (λ b. b < 256) bytes → decode_hex (ext.encode_hex bytes) ≡ some bytes)
      → (calls : List Call) → All (λ c. HasBytes c.out) calls
      → (now limit stale_after_secs : ℕ) (tables : Tables) (ledger : Ledger) (i : ℕ)
        (m : AlertMatch)
      → get_elem?
          (find_pending_alert_matches now limit stale_after_secs tables
            (serve_all ext calls (record { next_id = 1; rows = [] })).0
            ledger)
          i
        ≡ some m
      → (world : World) (held : Ledger) → world.claim_ok ≡ true
      → (try_claim_alert_match world.claim_at m.subscription_id m.tx_hash claim_stale_after_secs
          held).1
        ≡ true
      → (key : List ℕ) × (post : Post) × IsBytes key
        × (m.signing_secret ≡ ext.encode_hex key)
        × ((dispatch_item dispatcher world m held).posts ≡ post ∷ [])
        × (post.url ≡ m.webhook_url)
        × (post.body ≡ payload_json m.subscription_id m.tx_hash)
        × (post.signature_hex ≡ sign_payload key post.body)
  unfolding build_post find_pending_alert_matches
  pending_sent decodes calls entropy now limit stale_after_secs tables ledger i m found world held
        up granted =
      let sound =
        serve_all-IsTable ext calls (record { next_id = 1; rows = [] }) entropy (tt, tt) in
      let (safe, (bytes, are_bytes, encoded)) =
        All-get IsSendable _ i
          (All-take IsSendable limit _ (
            all_matches-IsSendable now stale_after_secs tables.transactions ledger _
              tables.failed_transactions sound.1))
          found in
      (
        bytes,
        build_post dispatcher m bytes,
        are_bytes,
        encoded,
        dispatch_item-sent world m held bytes up granted safe
            (ap decode_hex encoded ∙ decodes bytes are_bytes.1),
        refl,
        refl,
        refl,
      )
