-- ===== src/Api/Guarded.antt =====
-- What a client without the key can do and see.
use defi_tx_indexer.Prelude.{
  ℕ, zero, suc, ◌≡◌, ◌≢◌, refl, sym, ap, ◌∙◌, inl, inr, Option, none, some, List, [], ◌∷◌, ◌++◌,
  Text, codes, text_eq, text_eq→eq, All, Bool-cases, map, take, pos, unwrap_or, strip_prefix,
  strip_prefix_inv,
}
use defi_tx_indexer.Alerts.Subscriptions.{Subscriptions, list_alert_subscriptions}
use defi_tx_indexer.Api.{
  unauthorized, err, Header, missing, opaque, visible, check_token, from_request_parts,
}
use defi_tx_indexer.Api.Pagination.{clamp_limit}
use defi_tx_indexer.Api.Shown.{listed}
use defi_tx_indexer.Api.Subscriptions.{
  Externals, Outside, listing, Call, Request, create, list, deactivate, rotate, serve, serve_all,
  admin, list_subscriptions,
}

map-take {ℓ κ} :
    {A : Type ℓ} {B : Type κ} (f : A → B) (n : ℕ) (xs : List A)
    → map f (take n xs) ≡ take n (map f xs)
map-take f zero xs = refl
map-take f (suc n) [] = refl
map-take f (suc n) (x ∷ xs) = ap (λ t. f x ∷ t) (map-take f n xs)

-- The token that is let through is the key.
check_token-key :
    (key : Text) (o : Option Text) → o ≢ some key → check_token key o ≡ err unauthorized
unfolding check_token
check_token-key key none h = refl
check_token-key key (some token) h = elim (Bool-cases (text_eq token key)) [
  | inl same ↦ absurd (h (ap some (text_eq→eq token key same)))
  | inr other ↦ rw other refl
]

-- A header other than the key's is refused.
header_refused :
    (key : Text) (header : Header)
    → header ≢ visible (codes "Bearer " ++ key)
    → from_request_parts key header ≡ err unauthorized
unfolding from_request_parts
header_refused key missing h = refl
header_refused key opaque h = refl
header_refused key (visible value) h =
    check_token-key key (strip_prefix (codes "Bearer ") value)
      (λ e. h (ap visible (strip_prefix_inv (codes "Bearer ") value e)))

module _ (ext : Externals) where
  -- One call without the key leaves the table, and its answer is a function of what a listing shows.
  serve-blind :
      (out : Outside) (header : Header) (request : Request) (t u : Subscriptions)
      → header ≢ visible (codes "Bearer " ++ ext.admin_api_key)
      → map listed t.rows ≡ map listed u.rows
      → ((serve ext out header request t).0 ≡ t)
        × ((serve ext out header request t).1 ≡ (serve ext out header request u).1)
  unfolding serve admin list_subscriptions list_alert_subscriptions
  serve-blind out header (create body) t u h e =
      rw (header_refused ext.admin_api_key header h) (refl, refl)
  serve-blind out header (deactivate id) t u h e =
      rw (header_refused ext.admin_api_key header h) (refl, refl)
  serve-blind out header (rotate id) t u h e =
      rw (header_refused ext.admin_api_key header h) (refl, refl)
  serve-blind out header (list limit) t u h e =
      let n = clamp_limit 500 (unwrap_or limit (pos 100)) in
      elim (Bool-cases out.database_up) [
        | inr down ↦ rw down (refl, refl)
        | inl up ↦ rw up (
          refl,
          ap listing (map-take listed n t.rows ∙ ap (take n) e ∙ sym (map-take listed n u.rows)),
        )
      ]

  -- A client that does not have the key changes no subscription and learns nothing of the secrets: its
  -- calls, in whatever number, leave the table as it is, and their answers are the same on any two
  -- tables that differ at most in the secrets.
  pub serve_all-blind :
      (calls : List Call) (t u : Subscriptions)
      → All (λ c. c.header ≢ visible (codes "Bearer " ++ ext.admin_api_key)) calls
      → map listed t.rows ≡ map listed u.rows
      → ((serve_all ext calls t).0 ≡ t) × ((serve_all ext calls t).1 ≡ (serve_all ext calls u).1)
  unfolding serve_all
  serve_all-blind [] t u h e = (refl, refl)
  serve_all-blind (c ∷ cs) t u h e =
      let (left_t, answer) = serve-blind c.out c.header c.request t u h.0 e in
      let (left_u, _) = serve-blind c.out c.header c.request u t h.0 (sym e) in
      let (rest_t, rest) = serve_all-blind cs t u h.1 e in
      rw (left_t, left_u, answer, rest) (rest_t, refl)
