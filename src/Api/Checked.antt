-- ===== src/Api/Checked.antt =====
-- What the checks of a body establish, for the insert behind them.
use defi_tx_indexer.Prelude.{
  ℕ, ◌≤◌, ◌≡◌, refl, subst, inl, inr, ◌⊎◌, Option, none, some, List, [], ◌∷◌, Text, codes, leb,
  leb→le, str_len, to_ascii_lowercase, arith, Bool-cases, text_eq, not,
}
use defi_tx_indexer.Validators.{UnsafeUrlReason, webhook_url_is_safe}
use defi_tx_indexer.Db.Category.{ErrorCategory}
use defi_tx_indexer.Alerts.Subscriptions.{
  Subscriptions, per_event_row, rate_row, insert_alert_subscription, insert_alert_subscription_rate,
}
use defi_tx_indexer.Api.{ApiError, Result, ok, err}
use defi_tx_indexer.Api.Bodies.{
  CreateBody, is_evm_address, category_of_body, address_of, sub_type_of, rate_fields,
  has_rate_field, generate_signing_secret, safe_url,
}
use defi_tx_indexer.Api.Subscriptions.{
  Externals, Outside, Statement, per_event_insert, rate_insert, typed_insert, checked_insert,
}
use defi_tx_indexer.Api.Sound.{IsAddress, IsBytes, IsSecret, IsTable, insert_row-IsTable}

Result-cases {ℓ} :
    {A : Type ℓ} (m : Result A) → ((e : ApiError) × (m ≡ err e)) ⊎ ((a : A) × (m ≡ ok a))
Result-cases (ok a) = inr (a, refl)
Result-cases (err e) = inl (e, refl)

safe_url-ok : (o : Option UnsafeUrlReason) (u : Unit) → safe_url o ≡ ok u → o ≡ none
unfolding safe_url
safe_url-ok none u h = refl
safe_url-ok (some reason) u h = cc

ascii_lower_again : (s : Text) → to_ascii_lowercase (to_ascii_lowercase s) ≡ to_ascii_lowercase s
unfolding to_ascii_lowercase
ascii_lower_again [] = refl
ascii_lower_again (c ∷ s) = rw (ascii_lower_again s) (ground arith)

address_of-IsAddress : (o a : Option Text) → address_of o ≡ ok a → IsAddress a
unfolding address_of
address_of-IsAddress none a h = let e : none ≡ a = cc in subst IsAddress e tt
address_of-IsAddress (some []) a h = let e : none ≡ a = cc in subst IsAddress e tt
address_of-IsAddress (some (c ∷ s)) a h =
    elim (Bool-cases (is_evm_address (to_ascii_lowercase (c ∷ s)))) [
      | inl good ↦
          let e' : ok (some (to_ascii_lowercase (c ∷ s))) ≡ ok a = rw good at h in
          let e : some (to_ascii_lowercase (c ∷ s)) ≡ a = cc in
          subst IsAddress e (good, ascii_lower_again (c ∷ s))
      | inr bad ↦ let e' : err _ ≡ ok a = rw bad at h in absurd cc
    ]

-- Every random answer has the 32 bytes that are asked for.
abbrev pub HasBytes : Outside → Type 0
HasBytes out = (bytes : List ℕ) → out.random ≡ some bytes → IsBytes bytes

module _ (ext : Externals) where
  pub generate_signing_secret-IsSecret :
      (random : Option (List ℕ)) (secret : Text)
      → ((bytes : List ℕ) → random ≡ some bytes → IsBytes bytes)
      → generate_signing_secret ext.encode_hex random ≡ ok secret
      → IsSecret ext secret
  unfolding generate_signing_secret
  generate_signing_secret-IsSecret none secret h e = absurd cc
  generate_signing_secret-IsSecret (some bytes) secret h e = (bytes, h bytes refl, cc)

  abbrev pub Keeps : Result Statement → Type 0
  Keeps (err e) = Unit
  Keeps (ok statement) = (t : Subscriptions) → IsTable ext t → IsTable ext (statement t).0

  module _ (out : Outside) (body : CreateBody) (category : Option ErrorCategory)
      (to_addr : Option Text) (secret : Text) (short : str_len body.webhook_url ≤ 2048)
      (safe : webhook_url_is_safe ext.parse_url ext.parse_ip body.webhook_url ≡ none)
      (address : IsAddress to_addr) (is_secret : IsSecret ext secret) where
    per_event_insert-Keeps : Keeps (per_event_insert ext out body category to_addr secret)
    unfolding per_event_insert insert_alert_subscription
    per_event_insert-Keeps = elim (Bool-cases (not (has_rate_field body))) [
      | inl plain ↦ rw plain (λ t h.
          insert_row-IsTable ext (per_event_row out.now category to_addr body.webhook_url secret) t
            safe short address is_secret h)
      | inr rate ↦ rw rate tt
    ]

    rate_insert-Keeps : Keeps (rate_insert ext out body category to_addr secret)
    unfolding rate_insert insert_alert_subscription_rate
    rate_insert-Keeps = elim (Result-cases (rate_fields body)) [
      | inl (e, bad) ↦ rw bad tt
      | inr ((count, window, debounce), good) ↦ rw good (λ t h.
          insert_row-IsTable ext
            (rate_row out.now category to_addr body.webhook_url secret count window debounce) t safe
            short address is_secret h)
    ]

    typed_insert-Keeps :
        (sub_type : Text) → Keeps (typed_insert ext out body category to_addr sub_type secret)
    unfolding typed_insert
    typed_insert-Keeps sub_type = elim (Bool-cases (text_eq sub_type (codes "per_event"))) [
      | inl per_event ↦ rw per_event per_event_insert-Keeps
      | inr rate ↦ rw rate rate_insert-Keeps
    ]

  pub checked_insert-Keeps :
      (out : Outside) (body : CreateBody) → HasBytes out → Keeps (checked_insert ext out body)
  unfolding checked_insert
  checked_insert-Keeps out body entropy = elim (Bool-cases (leb (str_len body.webhook_url) 2048)) [
    | inr long ↦ rw long tt
    | inl short ↦
        rw short
          (elim (Result-cases
            (safe_url (webhook_url_is_safe ext.parse_url ext.parse_ip body.webhook_url))) [
              | inl (e, bad) ↦ rw bad tt
              | inr (u, safe) ↦
                  rw safe (elim (Result-cases (category_of_body body.error_category)) [
                    | inl (e, bad) ↦ rw bad tt
                    | inr (category, known) ↦
                        rw known (elim (Result-cases (address_of body.to_addr)) [
                          | inl (e, bad) ↦ rw bad tt
                          | inr (to_addr, address) ↦
                              rw address (elim (Result-cases (sub_type_of body.sub_type)) [
                                | inl (e, bad) ↦ rw bad tt
                                | inr (sub_type, typed) ↦
                                    rw typed
                                      (elim (Result-cases
                                        (generate_signing_secret ext.encode_hex out.random)) [
                                          | inl (e, bad) ↦ rw bad tt
                                          | inr (secret, generated) ↦ rw generated (
                                              typed_insert-Keeps out body category to_addr secret
                                                (leb→le _ _ short) (safe_url-ok _ u safe)
                                                (address_of-IsAddress body.to_addr to_addr address)
                                                (generate_signing_secret-IsSecret out.random secret
                                                  entropy generated)
                                                sub_type)
                                        ])
                              ])
                        ])
                  ])
            ])
  ]
