-- ===== src/Api.antt =====
-- crates/api/src: error.rs and auth.rs, and the results of the handlers.
pub mod Bodies
pub mod Pagination
pub mod Checked
pub mod Delivered
pub mod FailedTx
pub mod Guarded
pub mod Kept
pub mod Sound
pub mod Shown
pub mod Subscriptions
use defi_tx_indexer.Prelude.{
  ℕ, Bool, true, false, Option, none, some, Text, codes, text_eq, if◌then◌else◌, strip_prefix,
}

pub data ApiError : Type 0 where
  not_found : Text → ApiError
  bad_request : Text → ApiError
  unauthorized : ApiError
  internal : Text → ApiError

-- `into_response`: the status and the message of the body.
unfoldable into_response : ApiError → ℕ × Text
into_response (not_found msg) = (404, msg)
into_response (bad_request msg) = (400, msg)
into_response unauthorized = (401, codes "unauthorized")
into_response (internal msg) = (500, msg)

-- A handler's result: its answer, or the error that it is answered with.
pub data Result {ℓ} (A : Type ℓ) : Type ℓ where
  err : ApiError → Result A
  ok : A → Result A

-- The operators of a `do` block: the first error ends it, as `?` does.
infixl 5 ◌>>=◌
abbrev pub ◌>>=◌ {ℓ κ} : {A : Type ℓ} {B : Type κ} → Result A → (A → Result B) → Result B
m >>= next = elim m [ err e ↦ err e | ok a ↦ next a ]

infixl 5 ◌>>◌
abbrev pub ◌>>◌ {κ} : {B : Type κ} → Result (Unit {0}) → Result B → Result B
check >> rest = elim check [ err e ↦ err e | ok _ ↦ rest ]

-- The error is returned if the condition does not hold.
abbrev pub require : Bool → ApiError → Result (Unit {0})
require true e = ok tt
require false e = err e

abbrev pub ok_or {ℓ} : {A : Type ℓ} → ApiError → Option A → Result A
ok_or e none = err e
ok_or e (some a) = ok a

-- The `Authorization` header of a request: not there, not readable as a text, or a text.
pub data Header : Type 0 where
  missing : Header
  opaque : Header
  visible : Text → Header

abbrev bearer_prefix : Text
bearer_prefix = codes "Bearer "

unfoldable pub check_token : Text → Option Text → Result (Unit {0})
unfolding text_eq
check_token admin_api_key none = err unauthorized
check_token admin_api_key (some token) = require (text_eq token admin_api_key) unauthorized

-- `AdminAuth::from_request_parts`
unfoldable pub from_request_parts : Text → Header → Result (Unit {0})
unfolding check_token strip_prefix
from_request_parts admin_api_key missing = err unauthorized
from_request_parts admin_api_key opaque = err unauthorized
from_request_parts admin_api_key (visible value) =
    check_token admin_api_key (strip_prefix bearer_prefix value)
