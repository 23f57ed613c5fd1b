-- ===== src/Alerts/Rate/Quiet.antt =====
-- A rate alert is followed by silence for the debounce time of its subscription.
use defi_tx_indexer.Prelude.{
  ℕ, ◌+◌, ◌<◌, ◌≡◌, ◌≢◌, refl, sym, ap, ◌∙◌, inl, inr, Bool, true, false, ◌&&◌, not, Option, none,
  some, List, [], ◌∷◌, ◌++◌, Text, codes, text_eq, leb, count_of, lt→ltb, ==_iff, All, All-append,
  any, All-map, All-take, ℤ, pos, Bool-cases, Option-cases,
}
use defi_tx_indexer.Db.Rows.{Tables}
use defi_tx_indexer.Validators.{UnsafeUrlReason}
use defi_tx_indexer.Alerts.Dispatch.{Post, Answer, success, error, DispatchOutcome}
use defi_tx_indexer.Alerts.Subscriptions.{AlertSubscription, Subscriptions}
use defi_tx_indexer.Alerts.Matches.{
  RateAlertMatch, RateDispatch, is_recent, in_window, rate_group, rate_fields_of, rate_match,
  rate_matches, find_pending_rate_alert_matches, record_rate_alert_dispatch,
}
use defi_tx_indexer.Alerts.Rate.{
  RateExternals, RateWorld, RateDispatched, record_outcome, after_rate_post, with_rate_key,
  with_rate_url, dispatch_rate_item,
}

-- A returned outcome is that of a recorded dispatch, at the time of the record.
abbrev IsRecorded : RateWorld → RateAlertMatch → List RateDispatch → RateDispatched → Type 0
IsRecorded world item before r =
    (o : DispatchOutcome)
    → r.outcome ≡ some o
    → (d : RateDispatch) × (r.dispatches ≡ d ∷ before)
      × (d.subscription_id ≡ item.subscription_id)
      × (d.dispatched_at ≡ world.record_at)

module _ (ext : RateExternals) (world : RateWorld) (item : RateAlertMatch)
    (before : List RateDispatch) where
  record_outcome-IsRecorded :
      (posts : List Post) (good : Bool) (last_error : Option Text) (outcome : DispatchOutcome)
      → IsRecorded world item before
          (record_outcome ext world item posts good last_error outcome before)
  unfolding record_outcome record_rate_alert_dispatch
  record_outcome-IsRecorded posts good last_error outcome o e = elim (Bool-cases world.record_ok) [
    | inl up ↦ rw up (_, refl, refl, refl)
    | inr down ↦ let bad : none ≡ some o = rw down at e in absurd cc
  ]

  after_rate_post-IsRecorded :
      (post : Post) (a : Answer)
      → IsRecorded world item before (after_rate_post ext world item post a before)
  unfolding after_rate_post
  after_rate_post-IsRecorded post success = record_outcome-IsRecorded _ _ _ _
  after_rate_post-IsRecorded post (error e) = record_outcome-IsRecorded _ _ _ _

  with_rate_key-IsRecorded :
      (o : Option (List ℕ)) → IsRecorded world item before (with_rate_key ext world item o before)
  unfolding with_rate_key
  with_rate_key-IsRecorded none = record_outcome-IsRecorded _ _ _ _
  with_rate_key-IsRecorded (some key) = after_rate_post-IsRecorded _ _

  with_rate_url-IsRecorded :
      (o : Option UnsafeUrlReason)
      → IsRecorded world item before (with_rate_url ext world item o before)
  unfolding with_rate_url
  with_rate_url-IsRecorded (some reason) = record_outcome-IsRecorded _ _ _ _
  with_rate_url-IsRecorded none = with_rate_key-IsRecorded _

  dispatch_rate_item-IsRecorded :
      IsRecorded world item before (dispatch_rate_item ext world item before)
  unfolding dispatch_rate_item
  dispatch_rate_item-IsRecorded = with_rate_url-IsRecorded _

any-append_right {ℓ} :
    {A : Type ℓ} (p : A → Bool) (xs : List A) (d : A) (ds : List A)
    → p d ≡ true
    → any p (xs ++ (d ∷ ds)) ≡ true
any-append_right p [] d ds h = rw h refl
any-append_right p (x ∷ xs) d ds h =
    rw (any-append_right p xs d ds h)
      (elim (Bool-cases (p x)) [ inl t ↦ rw t refl | inr f ↦ rw f refl ])

some_inj {ℓ} : {A : Type ℓ} {a b : A} → some a ≡ some b → a ≡ b
some_inj e = cc

last_not : (a b c : Bool) → (a && (b && not c)) ≡ true → c ≡ false
last_not a b false h = refl
last_not false b true h = absurd cc
last_not true false true h = absurd cc
last_not true true true h = absurd cc

module _ (now : ℕ) (tables : Tables) (dispatches : List RateDispatch) where
  rate_group-id :
      (s : AlertSubscription) (threshold window : ℕ) (m : RateAlertMatch)
      → rate_group now tables dispatches s threshold window ≡ some m
      → m.subscription_id ≡ s.subscription_id
  unfolding rate_group
  rate_group-id s threshold window m e =
      let count =
        count_of (in_window now tables.transactions s window) tables.failed_transactions in
      elim (Bool-cases (leb 1 count && leb threshold count)) [
        | inl enough ↦ sym (
            some_inj
              (ap (λ o. elim o [ none ↦ none | some x ↦ some x.subscription_id ]) (rw enough at e)))
        | inr few ↦ let bad : none ≡ some m = rw few at e in absurd cc
      ]

  rate_fields_of-id :
      (s : AlertSubscription) (threshold window : Option ℤ) (m : RateAlertMatch)
      → rate_fields_of now tables dispatches s threshold window ≡ some m
      → m.subscription_id ≡ s.subscription_id
  unfolding rate_fields_of
  rate_fields_of-id s none window m e = absurd cc
  rate_fields_of-id s (some threshold) none m e = absurd cc
  rate_fields_of-id s (some threshold) (some window) m e = rate_group-id s _ _ m e

  -- A match comes of a subscription that no recent dispatch silences.
  rate_match-id :
      (s : AlertSubscription) (m : RateAlertMatch)
      → rate_match now tables dispatches s ≡ some m
      → (m.subscription_id ≡ s.subscription_id) × (any (is_recent now s) dispatches ≡ false)
  unfolding rate_match
  rate_match-id s m e =
      elim (Bool-cases (
        s.active
        && (text_eq s.sub_type (codes "rate_threshold")
            && not (any (is_recent now s) dispatches)))) [
              | inr refused ↦ let bad : none ≡ some m = rw refused at e in absurd cc
              | inl taken ↦ (
                rate_fields_of-id s s.threshold_count s.threshold_window_secs m (rw taken at e),
                last_not s.active _ _ taken,
              )
            ]

  -- Every match comes of a subscription of the table.
  rate_matches-All :
      (P : AlertSubscription → Type 0) (ss : List AlertSubscription)
      → All P ss
      → All
          (λ m.
            (s : AlertSubscription) × P s
            × (m.subscription_id ≡ s.subscription_id)
            × (any (is_recent now s) dispatches ≡ false))
          (rate_matches now tables dispatches ss)
  unfolding rate_matches
  rate_matches-All P [] h = tt
  rate_matches-All P (s ∷ ss) h = elim (Option-cases (rate_match now tables dispatches s)) [
    | inl e ↦ rw e (All-append _ _ [] (rate_matches-All P ss h.1) tt)
    | inr (m, e) ↦
        let (same, silent) = rate_match-id s m e in
        rw e (All-append _ _ (m ∷ []) (rate_matches-All P ss h.1) ((s, h.0, same, silent), tt))
  ]

is_recent_lem :
    (now : ℕ) (s : AlertSubscription) (d : RateDispatch) (debounce : ℕ)
    → s.debounce_secs ≡ some (pos debounce)
    → d.subscription_id ≡ s.subscription_id
    → now < d.dispatched_at + debounce
    → is_recent now s d ≡ true
unfolding is_recent
is_recent_lem now s d debounce has same early =
    rw
      (
        has,
        (==_iff d.subscription_id s.subscription_id).1 same,
        lt→ltb now (d.dispatched_at + debounce) early,
      )
      refl

-- Once dispatch_rate_item has returned an outcome for a match, no scan returns a match of that
-- subscription again before its debounce time is over, whatever is recorded in between. The
-- debounce time is that of each row with the subscription's id.
pub rate_alert_quiet :
    (ext : RateExternals) (world : RateWorld) (item : RateAlertMatch)
    (before later : List RateDispatch) (o : DispatchOutcome) (debounce : ℕ) (now limit : ℕ)
    (tables : Tables) (t : Subscriptions)
    → (dispatch_rate_item ext world item before).outcome ≡ some o
    → now < world.record_at + debounce
    → All
        (λ s. s.subscription_id ≡ item.subscription_id → s.debounce_secs ≡ some (pos debounce))
        t.rows
    → All
        (λ m. m.subscription_id ≢ item.subscription_id)
        (find_pending_rate_alert_matches now limit tables t
          (later ++ (dispatch_rate_item ext world item before).dispatches))
unfolding find_pending_rate_alert_matches
rate_alert_quiet ext world item before later o debounce now limit tables t returned early
      debounced =
    let (d, recorded, is_item, at) =
      dispatch_rate_item-IsRecorded ext world item before o returned in
    let after = later ++ (dispatch_rate_item ext world item before).dispatches in
    All-map _ _
      (λ m (s, has_debounce, is_s, silent) same.
        let recent : is_recent now s d ≡ true =
          is_recent_lem now s d debounce (has_debounce (sym is_s ∙ same))
            (is_item ∙ sym same ∙ is_s) (rw at early) in
        let noisy : any (is_recent now s) after ≡ true =
          ap (λ x. any (is_recent now s) (later ++ x)) recorded
          ∙ any-append_right (is_recent now s) later d before recent in
        let clash : true ≡ false = sym noisy ∙ silent in absurd cc)
      _ (All-take _ limit _ (rate_matches-All now tables after _ t.rows debounced))
