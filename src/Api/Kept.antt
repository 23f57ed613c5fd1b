-- ===== src/Api/Kept.antt =====
-- The calls keep what holds of the table of the subscriptions.
use defi_tx_indexer.Prelude.{
  ℕ, ◌≡◌, refl, inl, inr, Bool, true, false, Option, none, some, List, [], ◌∷◌, Text, All,
  Bool-cases, arith,
}
use defi_tx_indexer.Alerts.Subscriptions.{
  AlertSubscription, Subscriptions, deactivated, with_secret, deactivate_alert_subscription,
  rotate_alert_subscription_secret,
}
use defi_tx_indexer.Api.{Result, ok, err, Header}
use defi_tx_indexer.Api.Subscriptions.{
  Externals, Outside, Statement, Response, checked_insert, insert_checked, answer_created,
  create_alert_subscription, rotate_with, answer_rotated, answer_deactivated, Call, Request, create,
  list, deactivate, rotate, serve, serve_all, admin, list_subscriptions, deactivate_subscription,
  rotate_subscription,
}
use defi_tx_indexer.Api.Sound.{
  IsTable, IsSecret, update_active-Falls, update_active-All, deactivated-IsRow, with_secret-IsRow,
}
use defi_tx_indexer.Api.Checked.{
  HasBytes, Keeps, checked_insert-Keeps, generate_signing_secret-IsSecret,
}

-- The answers leave the table.
answer_created-0 : (p : Subscriptions × Option AlertSubscription) → (answer_created p).0 ≡ p.0
unfolding answer_created
answer_created-0 (t, none) = refl
answer_created-0 (t, some row) = refl

answer_rotated-0 :
    (id : ℕ) (p : Subscriptions × Option AlertSubscription) → (answer_rotated id p).0 ≡ p.0
unfolding answer_rotated
answer_rotated-0 id (t, none) = refl
answer_rotated-0 id (t, some row) = refl

answer_deactivated-0 : (id : ℕ) (p : Subscriptions × ℕ) → (answer_deactivated id p).0 ≡ p.0
unfolding answer_deactivated
answer_deactivated-0 id (t, affected) = ground arith

module _ (ext : Externals) where
  admin-IsTable :
      (m : Result (Unit {0})) (handler : Subscriptions → Subscriptions × Response)
      → ((t : Subscriptions) → IsTable ext t → IsTable ext (handler t).0)
      → (t : Subscriptions) → IsTable ext t
      → IsTable ext (admin m handler t).0
  unfolding admin
  admin-IsTable (err e) handler keeps t h = h
  admin-IsTable (ok _) handler keeps t h = keeps t h

  insert_checked-IsTable :
      (up : Bool) (m : Result Statement)
      → Keeps ext m
      → (t : Subscriptions) → IsTable ext t
      → IsTable ext (insert_checked up m t).0
  unfolding insert_checked
  insert_checked-IsTable up (err e) keeps t h = h
  insert_checked-IsTable false (ok statement) keeps t h = h
  insert_checked-IsTable true (ok statement) keeps t h =
      rw (answer_created-0 (statement t)) (keeps t h)

  deactivate-IsTable :
      (out : Outside) (id : ℕ) (t : Subscriptions)
      → IsTable ext t
      → IsTable ext (deactivate_subscription ext out id t).0
  unfolding deactivate_subscription deactivate_alert_subscription
  deactivate-IsTable out id t h = elim (Bool-cases out.database_up) [
    | inr down ↦ rw down h
    | inl up ↦
        rw (up, answer_deactivated-0 id (deactivate_alert_subscription id t))
          (
            update_active-Falls ext deactivated (λ s. refl) (deactivated-IsRow ext) id t.next_id
                t.rows h.0,
            update_active-All ext deactivated (λ s. refl) (deactivated-IsRow ext) id t.rows h.1,
          )
  ]

  rotate_with-IsTable :
      (out : Outside) (id : ℕ) (m : Result Text)
      → ((secret : Text) → m ≡ ok secret → IsSecret ext secret)
      → (t : Subscriptions) → IsTable ext t
      → IsTable ext (rotate_with ext out id m t).0
  unfolding rotate_with rotate_alert_subscription_secret
  rotate_with-IsTable out id (err e) secret t h = h
  rotate_with-IsTable out id (ok x) secret t h = elim (Bool-cases out.database_up) [
    | inr down ↦ rw down h
    | inl up ↦
        rw (up, answer_rotated-0 id (rotate_alert_subscription_secret id x t))
          (
            update_active-Falls ext (with_secret x) (λ s. refl)
                (with_secret-IsRow ext x (secret x refl)) id t.next_id t.rows h.0,
            update_active-All ext (with_secret x) (λ s. refl)
                (with_secret-IsRow ext x (secret x refl)) id t.rows h.1,
          )
  ]

  serve-IsTable :
      (out : Outside) (header : Header) (request : Request)
      → HasBytes out
      → (t : Subscriptions) → IsTable ext t
      → IsTable ext (serve ext out header request t).0
  unfolding serve create_alert_subscription rotate_subscription list_subscriptions
  serve-IsTable out header (create body) entropy t h =
      admin-IsTable _ _
        (insert_checked-IsTable out.database_up (checked_insert ext out body)
          (checked_insert-Keeps ext out body entropy))
        t h
  serve-IsTable out header (list limit) entropy t h = elim (Bool-cases out.database_up) [
    | inl up ↦ rw up h
    | inr down ↦ rw down h
  ]
  serve-IsTable out header (deactivate id) entropy t h =
      admin-IsTable _ _ (deactivate-IsTable out id) t h
  serve-IsTable out header (rotate id) entropy t h =
      admin-IsTable _ _
        (rotate_with-IsTable out id _
          (λ secret e. generate_signing_secret-IsSecret ext out.random secret entropy e))
        t h

  -- Whatever is called, with or without the key, every subscription in the table keeps a URL that the
  -- validator accepts, of at most 2048 bytes, an address that is none or 0x and 40 hex digits in lower
  -- case, the rate fields that its type asks for, and as secret the hex of 32 bytes; and the ids of
  -- the rows, newest first, fall and lie below the next one. The random bytes of a call, if there are
  -- any, are 32 numbers below 256.
  pub serve_all-IsTable :
      (calls : List Call) (t : Subscriptions)
      → All (λ c. HasBytes c.out) calls
      → IsTable ext t
      → IsTable ext (serve_all ext calls t).0
  unfolding serve_all
  serve_all-IsTable [] t entropy h = h
  serve_all-IsTable (c ∷ cs) t entropy h =
      serve_all-IsTable cs _ entropy.1 (serve-IsTable c.out c.header c.request entropy.0 t h)
