-- ===== src/Api/Pagination.antt =====
-- crates/api/src/pagination.rs: the page that a request asks for.
use defi_tx_indexer.Prelude.{ℕ, min, max, Option, ℤ, pos, max_zero, unwrap_or}

record PaginationParams : Type 0 where
  pub limit : Option ℤ
  pub offset : Option ℤ

-- `clamp(1, most)`
unfoldable pub clamp_limit : ℕ → ℤ → ℕ
clamp_limit most z = max 1 (min most (max_zero z))

unfoldable limit_of : PaginationParams → ℕ
unfolding clamp_limit
limit_of params = clamp_limit 100 (unwrap_or params.limit (pos 20))

unfoldable offset_of : PaginationParams → ℕ
offset_of params = max_zero (unwrap_or params.offset (pos 0))
