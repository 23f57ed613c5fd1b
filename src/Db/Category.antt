-- ===== src/Db/Category.antt =====
-- crates/db/src/models.rs: the enums of the tables, and crates/db/src/queries.rs: their SQL values.
use defi_tx_indexer.Prelude.{
  ◌≡◌, inl, inr, refl, sym, ◌∙◌, Option, none, some, List, [], ◌∷◌, Text, codes, text_eq,
  text_eq→eq, if◌then◌else◌, Bool-cases, All, ap, subst,
}

pub data ErrorCategory : Type 0 where
  insufficient_balance : ErrorCategory
  insufficient_allowance : ErrorCategory
  slippage_exceeded : ErrorCategory
  slippage_amount_out : ErrorCategory
  slippage_amount_in : ErrorCategory
  slippage_price_impact : ErrorCategory
  deadline_expired : ErrorCategory
  unauthorized : ErrorCategory
  transfer_failed : ErrorCategory
  unknown : ErrorCategory

-- `ErrorCategory::as_wire`
unfoldable pub as_wire : ErrorCategory → Text
as_wire insufficient_balance = codes "INSUFFICIENT_BALANCE"
as_wire insufficient_allowance = codes "INSUFFICIENT_ALLOWANCE"
as_wire slippage_exceeded = codes "SLIPPAGE_EXCEEDED"
as_wire slippage_amount_out = codes "SLIPPAGE_AMOUNT_OUT"
as_wire slippage_amount_in = codes "SLIPPAGE_AMOUNT_IN"
as_wire slippage_price_impact = codes "SLIPPAGE_PRICE_IMPACT"
as_wire deadline_expired = codes "DEADLINE_EXPIRED"
as_wire unauthorized = codes "UNAUTHORIZED"
as_wire transfer_failed = codes "TRANSFER_FAILED"
as_wire unknown = codes "UNKNOWN"

unfoldable pub error_category_to_sql : ErrorCategory → Text
error_category_to_sql insufficient_balance = codes "INSUFFICIENT_BALANCE"
error_category_to_sql insufficient_allowance = codes "INSUFFICIENT_ALLOWANCE"
error_category_to_sql slippage_exceeded = codes "SLIPPAGE_EXCEEDED"
error_category_to_sql slippage_amount_out = codes "SLIPPAGE_AMOUNT_OUT"
error_category_to_sql slippage_amount_in = codes "SLIPPAGE_AMOUNT_IN"
error_category_to_sql slippage_price_impact = codes "SLIPPAGE_PRICE_IMPACT"
error_category_to_sql deadline_expired = codes "DEADLINE_EXPIRED"
error_category_to_sql unauthorized = codes "UNAUTHORIZED"
error_category_to_sql transfer_failed = codes "TRANSFER_FAILED"
error_category_to_sql unknown = codes "UNKNOWN"

-- The first pair of a table of literals whose text is the one matched, as a `match` on a `&str`.
unfoldable pub match_str {ℓ} : {A : Type ℓ} → List (Text × A) → Text → Option A
match_str [] s = none
match_str ((t, a) ∷ table) s = if text_eq s t then some a else match_str table s

-- The arms of `ErrorCategory::from_str`.
abbrev wires : List (Text × ErrorCategory)
wires =
    (codes "INSUFFICIENT_BALANCE", insufficient_balance)
    ∷ (codes "INSUFFICIENT_ALLOWANCE", insufficient_allowance)
    ∷ (codes "SLIPPAGE_EXCEEDED", slippage_exceeded)
    ∷ (codes "SLIPPAGE_AMOUNT_OUT", slippage_amount_out)
    ∷ (codes "SLIPPAGE_AMOUNT_IN", slippage_amount_in)
    ∷ (codes "SLIPPAGE_PRICE_IMPACT", slippage_price_impact)
    ∷ (codes "DEADLINE_EXPIRED", deadline_expired)
    ∷ (codes "UNAUTHORIZED", unauthorized)
    ∷ (codes "TRANSFER_FAILED", transfer_failed)
    ∷ (codes "UNKNOWN", unknown)
    ∷ []

-- `ErrorCategory::from_str`
unfoldable pub from_str : Text → Option ErrorCategory
unfolding match_str
from_str s = match_str wires s

sql_is_wire : (c : ErrorCategory) → error_category_to_sql c ≡ as_wire c
unfolding error_category_to_sql as_wire
sql_is_wire insufficient_balance = refl
sql_is_wire insufficient_allowance = refl
sql_is_wire slippage_exceeded = refl
sql_is_wire slippage_amount_out = refl
sql_is_wire slippage_amount_in = refl
sql_is_wire slippage_price_impact = refl
sql_is_wire deadline_expired = refl
sql_is_wire unauthorized = refl
sql_is_wire transfer_failed = refl
sql_is_wire unknown = refl

-- What holds of every pair of the table holds of the pair that is found.
match_str-some {ℓ κ} :
    {A : Type ℓ} (P : Text × A → Type κ) (table : List (Text × A)) (s : Text) (a : A)
    → All P table
    → match_str table s ≡ some a
    → P (s, a)
unfolding match_str
match_str-some P [] s a h e = absurd cc
match_str-some P ((t, b) ∷ table) s a h e = elim (Bool-cases (text_eq s t)) [
  | inl same ↦
      let e' : some b ≡ some a = rw same at e in
      let b_is : b ≡ a = cc in
      subst (λ x. P (x, a)) (sym (text_eq→eq s t same)) (subst (λ y. P (t, y)) b_is h.0)
  | inr other ↦ match_str-some P table s a h.1 (rw other at e)
]

from_str-as_wire : (c : ErrorCategory) → from_str (as_wire c) ≡ some c
unfolding from_str as_wire text_eq
from_str-as_wire insufficient_balance = refl
from_str-as_wire insufficient_allowance = refl
from_str-as_wire slippage_exceeded = refl
from_str-as_wire slippage_amount_out = refl
from_str-as_wire slippage_amount_in = refl
from_str-as_wire slippage_price_impact = refl
from_str-as_wire deadline_expired = refl
from_str-as_wire unauthorized = refl
from_str-as_wire transfer_failed = refl
from_str-as_wire unknown = refl

-- The wire text of a category is read back as the category, no other text is read as it, and the
-- SQL value is the wire text.
from_str-as_wire_iff :
    (c : ErrorCategory) (s : Text)
    → (from_str s ≡ some c → s ≡ as_wire c)
      × (s ≡ as_wire c → from_str s ≡ some c)
      × (error_category_to_sql c ≡ as_wire c)
from_str-as_wire_iff c s = (
  unfold from_str as_wire in
      match_str-some (λ x. x.0 ≡ as_wire x.1) wires s c
        (refl, (refl, (refl, (refl, (refl, (refl, (refl, (refl, (refl, (refl, tt)))))))))),
  λ e. ap from_str e ∙ from_str-as_wire c,
  sql_is_wire c,
)
