-- ===== src/Examples/PageRuns.antt =====
-- A walk over the pages of the failed transactions.
use defi_tx_indexer.Prelude.{
  true, ℕ, ◌≡◌, refl, Bool, text_eq, count_of, Option, none, some, List, [], ◌∷◌, Text, codes, pos,
}
use defi_tx_indexer.Db.Category.{from_str, slippage_exceeded}
use defi_tx_indexer.Db.Rows.{FailedTransaction}
use defi_tx_indexer.Api.{ok}
use defi_tx_indexer.Api.FailedTx.{FailedTxQuery, Criteria, parse_category, criteria_of}
use defi_tx_indexer.Api.FailedTx.Pages.{walk, both, pages_complete}
use defi_tx_indexer.Examples.MatchRuns.{failure}

abbrev two_failures : List FailedTransaction
two_failures = failure ∷ record failure { tx_hash = codes "0x02" } ∷ []

abbrev no_time : Text → Option ℕ
no_time s = none

abbrev in_order : List FailedTransaction → List FailedTransaction
in_order fs = fs

abbrev slippage_pages : FailedTxQuery
slippage_pages = record {
  category = some (codes "SLIPPAGE_EXCEEDED");
  from = none;
  to = none;
  limit = some (pos 1);
  offset = none;
}

abbrev slippage_only : Criteria
slippage_only = record { category = some slippage_exceeded; from = none; to = none }

parsed : criteria_of no_time slippage_pages ≡ ok slippage_only
unfolding criteria_of parse_category from_str text_eq
parsed = refl

pages_complete_example :
    (seen : List FailedTransaction) × (walk no_time in_order two_failures 3 slippage_pages 0
      ≡ ok (seen, true))
    × ((p : FailedTransaction → Bool)
        → count_of p seen ≡ count_of (both slippage_only p) two_failures)
pages_complete_example =
    pages_complete no_time in_order two_failures slippage_pages slippage_only parsed (λ p xs. refl)
