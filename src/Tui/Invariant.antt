-- ===== src/Tui/Invariant.antt =====
-- What holds in every state of the client, for the tables, the filter and the fetch tasks.
pub mod Fetches
pub mod Updates
pub mod Messages
pub mod Reached
use defi_tx_indexer.Prelude.{
  ℕ, zero, suc, ◌+◌, ◌-◌, ◌%◌, ◌<◌, ◌≤◌, ◌≡◌, ◌⊎◌, inl, inr, refl, Bool, true, false, Option, none,
  some, List, [], ◌∷◌, ◌++◌, Text, text_eq, length, count_of, arith,
}
use defi_tx_indexer.Tui.Format.{categories}
use defi_tx_indexer.Tui.App.{
  App, Loadable, idle, loading, loaded, failed, Request, fetch_latest_block, fetch_analysis,
  fetch_failed, fetch_detail, fetch_clusters, failed_len, cluster_len,
}

-- The selection of a table of some rows: none if it is empty, a row of it otherwise.
abbrev pub Selected : ℕ → Option ℕ → Type 0
Selected len none = len ≡ 0
Selected len (some i) = i < len

-- All categories, or one of the ten.
abbrev pub IsFilter : Option Text → Type 0
IsFilter none = Unit
IsFilter (some c) = 1 ≤ count_of (text_eq c) categories

-- The kinds of the fetch tasks.
unfoldable pub is_latest_block : Request → Bool
is_latest_block fetch_latest_block = true
is_latest_block _ = false

unfoldable pub is_analysis : Request → Bool
is_analysis fetch_analysis = true
is_analysis _ = false

unfoldable pub is_failed : Request → Bool
is_failed (fetch_failed filter) = true
is_failed _ = false

unfoldable pub is_detail : Request → Bool
is_detail (fetch_detail hash) = true
is_detail _ = false

unfoldable pub is_clusters : Request → Bool
is_clusters fetch_clusters = true
is_clusters _ = false

-- What is being loaded has a task of its kind.
abbrev pub Awaited {ℓ} : {A : Type ℓ} → Loadable A → (Request → Bool) → List Request → Type 0
Awaited loading p running = 1 ≤ count_of p running
Awaited _ p running = Unit

pub record IsConsistent (app : App) (running : List Request) : Type 0 where
  pub counted : app.inflight ≡ length running
  pub row : Selected (failed_len app.failed) app.table_state
  pub cluster_row : Selected (cluster_len app.clusters) app.cluster_state
  pub page_size : app.filter.limit ≡ 20
  pub page : app.filter.offset % 20 ≡ 0
  pub category : IsFilter app.filter.category
  pub block_awaited : Awaited app.latest_block is_latest_block running
  pub analysis_awaited : Awaited app.analysis is_analysis running
  pub failed_awaited : Awaited app.failed is_failed running
  pub detail_awaited : Awaited app.detail is_detail running
  pub clusters_awaited : Awaited app.clusters is_clusters running
