-- ===== src/Api/FailedTx.antt =====
-- crates/api/src/routes/failed_tx.rs: the list of the failed transactions, with list_failed_transactions
-- and count_failed_transactions of crates/db/src/queries.rs. The parser of times is a parameter. So is
-- the order in which the database puts the rows: the code asks for falling timestamps, and leaves
-- open how rows of one timestamp, which are those of one block, follow each other.
pub mod Pages
use defi_tx_indexer.Prelude.{
  ℕ, ◌+◌, min, max, Bool, true, false, ◌&&◌, Option, none, some, List, [], ◌∷◌, ◌++◌, Text, codes,
  leb, if◌then◌else◌, length, take, drop, ℤ, pos, max_zero, unwrap_or, count_of,
}
use defi_tx_indexer.Db.Category.{ErrorCategory, from_str}
use defi_tx_indexer.Db.Rows.{DateTime, FailedTransaction}
use defi_tx_indexer.Alerts.Matches.{category_matches}
use defi_tx_indexer.Api.{ApiError, bad_request, internal, Result, ok, err, ◌>>=◌, ◌>>◌, require}
use defi_tx_indexer.Api.Pagination.{clamp_limit}

pub record FailedTxQuery : Type 0 where
  pub category : Option Text
  pub from : Option Text
  pub to : Option Text
  pub limit : Option ℤ
  pub offset : Option ℤ

unfoldable parse_ts : (Text → Option DateTime) → Option Text → Text → Result (Option DateTime)
parse_ts parse_from_rfc3339 none field = ok none
parse_ts parse_from_rfc3339 (some []) field = ok none
parse_ts parse_from_rfc3339 (some (c ∷ s)) field = elim (parse_from_rfc3339 (c ∷ s)) [
  | none ↦ err (
      bad_request
        (codes "invalid `" ++ field ++ codes "` timestamp (expected RFC3339): " ++ (c ∷ s)))
  | some t ↦ ok (some t)
]

unfoldable pub parse_category : Option Text → Result (Option ErrorCategory)
unfolding from_str
parse_category none = ok none
parse_category (some []) = ok none
parse_category (some (c ∷ s)) = elim (from_str (c ∷ s)) [
  | none ↦ err (bad_request (codes "invalid `category`: " ++ (c ∷ s)))
  | some k ↦ ok (some k)
]

-- The filter of a request.
pub record Criteria : Type 0 where
  pub category : Option ErrorCategory
  pub from : Option DateTime
  pub to : Option DateTime

-- The `WHERE` of both statements.
unfoldable pub meets : Criteria → FailedTransaction → Bool
unfolding category_matches
meets c f =
    category_matches c.category f.error_category
    && (elim c.from [ none ↦ true | some t ↦ leb t f.timestamp ]
        && elim c.to [ none ↦ true | some t ↦ leb f.timestamp t ])

unfoldable pub select_where : Criteria → List FailedTransaction → List FailedTransaction
unfolding meets
select_where c [] = []
select_where c (f ∷ fs) = let rest = select_where c fs in if meets c f then f ∷ rest else rest

unfoldable pub list_failed_transactions :
    (List FailedTransaction → List FailedTransaction)
    → Criteria
    → ℕ
    → ℕ
    → List FailedTransaction
    → List FailedTransaction
unfolding select_where
list_failed_transactions order c limit offset fs =
    take limit (drop offset (order (select_where c fs)))

unfoldable pub count_failed_transactions : Criteria → List FailedTransaction → ℕ
unfolding meets
count_failed_transactions c fs = count_of (meets c) fs

-- `TotalPaginatedResponse` with its `PaginationMeta`
pub record FailedTxPage : Type 0 where
  pub items : List FailedTransaction
  pub limit : ℕ
  pub offset : ℕ
  pub count : ℕ
  pub total : ℕ

unfoldable pub criteria_of : (Text → Option DateTime) → FailedTxQuery → Result Criteria
unfolding parse_category parse_ts
criteria_of parse_from_rfc3339 q = do
  category ← parse_category q.category
  from ← parse_ts parse_from_rfc3339 q.from (codes "from")
  to ← parse_ts parse_from_rfc3339 q.to (codes "to")
  ok (record { category = category; from = from; to = to })

-- The two statements, and the page.
unfoldable pub page_of :
    (List FailedTransaction → List FailedTransaction)
    → Criteria
    → ℕ
    → ℕ
    → List FailedTransaction
    → FailedTxPage
unfolding list_failed_transactions count_failed_transactions
page_of order c limit offset fs =
    let rows = list_failed_transactions order c limit offset fs in
    record {
      items = rows;
      limit = limit;
      offset = offset;
      count = length rows;
      total = count_failed_transactions c fs;
    }

-- With the default and the bounds of the page's size.
abbrev pub limit_of_query : FailedTxQuery → ℕ
limit_of_query q = clamp_limit 100 (unwrap_or q.limit (pos 20))

unfoldable pub list_failed_tx :
    (Text → Option DateTime)
    → (List FailedTransaction → List FailedTransaction)
    → Bool
    → List FailedTransaction
    → FailedTxQuery
    → Result FailedTxPage
unfolding criteria_of page_of clamp_limit
list_failed_tx parse_from_rfc3339 order database_up fs q = do
  c ← criteria_of parse_from_rfc3339 q
  require database_up (internal (codes "database error"))
  ok (page_of order c (limit_of_query q) (max_zero (unwrap_or q.offset (pos 0))) fs)
