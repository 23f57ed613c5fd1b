-- ===== src/Api/Subscriptions.antt =====
-- crates/api/src/routes/alerts.rs: the handlers of the alert subscriptions, behind the parsing of the
-- request. The random bytes, the clock and the database's availability surround a request; the hex
-- encoding and the URL parsers are parameters.
use defi_tx_indexer.Prelude.{
  ℕ, Bool, not, Option, none, some, List, [], ◌∷◌, ◌++◌, Text, codes, text_eq, leb, ◌==◌,
  if◌then◌else◌, str_len, map, ℤ, pos, unwrap_or,
}
use defi_tx_indexer.Db.Category.{ErrorCategory}
use defi_tx_indexer.Trace.{decimal}
use defi_tx_indexer.Validators.{Url, IpAddr, webhook_url_is_safe}
use defi_tx_indexer.Alerts.Subscriptions.{
  AlertSubscription, Subscriptions, insert_alert_subscription, insert_alert_subscription_rate,
  list_alert_subscriptions, deactivate_alert_subscription, rotate_alert_subscription_secret,
}
use defi_tx_indexer.Api.{
  ApiError, not_found, bad_request, internal, Result, ok, err, ◌>>=◌, ◌>>◌, require, Header,
  from_request_parts,
}
use defi_tx_indexer.Api.Bodies.{
  CreateBody, category_of_body, address_of, sub_type_of, rate_fields, has_rate_field,
  generate_signing_secret, safe_url,
}
use defi_tx_indexer.Api.Shown.{Created, created_from, Listed, listed}
use defi_tx_indexer.Api.Pagination.{clamp_limit}

-- What surrounds a request: the random bytes, if the operating system has them, the time, and
-- whether the database answers.
pub record Outside : Type 0 where
  pub random : Option (List ℕ)
  pub now : ℕ
  pub database_up : Bool

pub record Externals : Type 0 where
  pub admin_api_key : Text
  pub encode_hex : List ℕ → Text
  pub parse_url : Text → Option Url
  pub parse_ip : Text → Option IpAddr

pub data Response : Type 0 where
  created : Created → Response
  rotated : Created → Response
  listing : List Listed → Response
  no_content : Response
  failed : ApiError → Response

abbrev database_error : ApiError
database_error = internal (codes "database error")

-- A statement, if the database answers.
abbrev pub Statement : Type 0
Statement = Subscriptions → Subscriptions × Option AlertSubscription

-- What a created row is answered with; a refused row is an error of the database.
unfoldable pub answer_created : Subscriptions × Option AlertSubscription → Subscriptions × Response
answer_created (t, none) = (t, failed database_error)
answer_created (t, some row) = (t, created (created_from row))

unfoldable pub insert_checked : Bool → Result Statement → Subscriptions → Subscriptions × Response
unfolding answer_created
insert_checked up (err e) t = (t, failed e)
insert_checked up (ok statement) t =
    if up then answer_created (statement t) else (t, failed database_error)

unfoldable pub answer_rotated :
    ℕ → Subscriptions × Option AlertSubscription → Subscriptions × Response
answer_rotated id (t, none) = (
  t,
  failed (
      not_found (
        codes "alert subscription "
        ++ decimal 20 id
        ++ codes " (not found or inactive — cannot rotate)")),
)
answer_rotated id (t, some row) = (t, rotated (created_from row))

unfoldable pub answer_deactivated : ℕ → Subscriptions × ℕ → Subscriptions × Response
answer_deactivated id (t, affected) =
    if affected == 0
    then (
      t,
      failed (
          not_found (
            codes "alert subscription "
            ++ decimal 20 id
            ++ codes " (not found or already inactive)")),
    )
    else (t, no_content)

pub data Request : Type 0 where
  create : CreateBody → Request
  list : Option ℤ → Request
  deactivate : ℕ → Request
  rotate : ℕ → Request

-- A handler that has an `AdminAuth` argument.
unfoldable pub admin :
    Result (Unit {0})
    → (Subscriptions → Subscriptions × Response)
    → Subscriptions
    → Subscriptions × Response
admin (err e) handler t = (t, failed e)
admin (ok _) handler t = handler t

module _ (ext : Externals) (out : Outside) where
  open ext use {admin_api_key, encode_hex, parse_url, parse_ip}

  unfoldable pub per_event_insert :
      CreateBody → Option ErrorCategory → Option Text → Text → Result Statement
  per_event_insert body category to_addr signing_secret = do
    require (not (has_rate_field body)) (
        bad_request (
          codes
            "per_event sub_type must not carry threshold_count / threshold_window_secs / debounce_secs"))
    ok (insert_alert_subscription out.now category to_addr body.webhook_url signing_secret)

  unfoldable pub rate_insert :
      CreateBody → Option ErrorCategory → Option Text → Text → Result Statement
  unfolding rate_fields
  rate_insert body category to_addr signing_secret = do
    (count, window, debounce) ← rate_fields body
    ok (
        insert_alert_subscription_rate out.now category to_addr body.webhook_url signing_secret
          count window debounce)

  unfoldable pub typed_insert :
      CreateBody → Option ErrorCategory → Option Text → Text → Text → Result Statement
  unfolding per_event_insert rate_insert
  typed_insert body category to_addr sub_type signing_secret =
      if text_eq sub_type (codes "per_event")
      then per_event_insert body category to_addr signing_secret
      else rate_insert body category to_addr signing_secret

  -- The insert of a body that passes the checks.
  unfoldable pub checked_insert : CreateBody → Result Statement
  unfolding category_of_body address_of sub_type_of generate_signing_secret safe_url rate_fields
  checked_insert body = do
    require (leb (str_len body.webhook_url) 2048)
        (bad_request (codes "webhook_url too long (max 2048)"))
    safe_url (webhook_url_is_safe parse_url parse_ip body.webhook_url)
    category ← category_of_body body.error_category
    to_addr ← address_of body.to_addr
    sub_type ← sub_type_of body.sub_type
    signing_secret ← generate_signing_secret encode_hex out.random
    typed_insert body category to_addr sub_type signing_secret

  unfoldable pub create_alert_subscription : CreateBody → Subscriptions → Subscriptions × Response
  unfolding checked_insert insert_checked
  create_alert_subscription body t = insert_checked out.database_up (checked_insert body) t

  unfoldable pub list_subscriptions : Option ℤ → Subscriptions → Subscriptions × Response
  unfolding clamp_limit
  list_subscriptions limit t =
      if out.database_up
      then (
        t,
        listing
            (map listed (list_alert_subscriptions (clamp_limit 500 (unwrap_or limit (pos 100))) t)),
      )
      else (t, failed database_error)

  unfoldable pub deactivate_subscription : ℕ → Subscriptions → Subscriptions × Response
  unfolding answer_deactivated
  deactivate_subscription id t =
      if out.database_up
      then answer_deactivated id (deactivate_alert_subscription id t)
      else (t, failed database_error)

  unfoldable pub rotate_with : ℕ → Result Text → Subscriptions → Subscriptions × Response
  unfolding answer_rotated
  rotate_with id (err e) t = (t, failed e)
  rotate_with id (ok new_secret) t =
      if out.database_up
      then answer_rotated id (rotate_alert_subscription_secret id new_secret t)
      else (t, failed database_error)

  unfoldable pub rotate_subscription : ℕ → Subscriptions → Subscriptions × Response
  unfolding rotate_with generate_signing_secret
  rotate_subscription id t = rotate_with id (generate_signing_secret encode_hex out.random) t

  unfoldable pub serve : Header → Request → Subscriptions → Subscriptions × Response
  unfolding admin create_alert_subscription list_subscriptions deactivate_subscription
      rotate_subscription
  serve header (create body) t =
      admin (from_request_parts admin_api_key header) (create_alert_subscription body) t
  serve header (list limit) t = list_subscriptions limit t
  serve header (deactivate id) t =
      admin (from_request_parts admin_api_key header) (deactivate_subscription id) t
  serve header (rotate id) t =
      admin (from_request_parts admin_api_key header) (rotate_subscription id) t

pub record Call : Type 0 where
  pub out : Outside
  pub header : Header
  pub request : Request

-- The calls of the clients, in the order in which their statements take effect.
unfoldable pub serve_all : Externals → List Call → Subscriptions → Subscriptions × List Response
unfolding serve
serve_all ext [] t = (t, [])
serve_all ext (c ∷ cs) t =
    let (t', response) = serve ext c.out c.header c.request t in
    let (t'', responses) = serve_all ext cs t' in (t'', response ∷ responses)
