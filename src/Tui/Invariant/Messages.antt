-- ===== src/Tui/Invariant/Messages.antt =====
-- An answer of a task keeps the invariant.
use defi_tx_indexer.Prelude.{
  ℕ, zero, suc, ◌+◌, ◌≡◌, refl, Bool, false, Option, none, some, List, [], ◌∷◌, length, get_elem?,
  count_of, arith,
}
use defi_tx_indexer.Tui.Event.{
  Fetched, ok, err, DataMsg, latest_block, analysis, failed_list, tx_detail, cluster_rows,
}
use defi_tx_indexer.Tui.App.{
  App, Loadable, idle, loading, loaded, failed, Request, fetch_latest_block, fetch_analysis,
  fetch_failed, fetch_detail, fetch_clusters, failed_len, cluster_len, settle, clamp_selected,
}
use defi_tx_indexer.Tui.Update.{ingest}
use defi_tx_indexer.Tui.Run.{without, Answers}
use defi_tx_indexer.Tui.Invariant.{
  Selected, Awaited, IsConsistent, is_latest_block, is_analysis, is_failed, is_detail, is_clusters,
}

clamp_selected-Selected : (len : ℕ) (o : Option ℕ) → Selected len (clamp_selected len o)
unfolding clamp_selected
clamp_selected-Selected len none = ground arith
clamp_selected-Selected len (some i) = ground arith

length-without :
    (rs : List Request) (i : ℕ) (r : Request)
    → get_elem? rs i ≡ some r
    → length (without i rs) + 1 ≡ length rs
unfolding without
length-without [] i r e = absurd (ground arith)
length-without (x ∷ rs) zero r e = omega arith
length-without (x ∷ rs) (suc i) r e = omega (arith, length-without rs i r e)

count_of-without :
    (p : Request → Bool) (rs : List Request) (i : ℕ) (r : Request)
    → get_elem? rs i ≡ some r
    → p r ≡ false
    → count_of p (without i rs) ≡ count_of p rs
unfolding without count_of
count_of-without p [] i r e other = absurd (ground arith)
count_of-without p (x ∷ rs) zero r e other =
    let here : p x ≡ false = let same : x ≡ r = cc in rw same other in rw here (omega arith)
count_of-without p (x ∷ rs) (suc i) r e other = omega (arith, count_of-without p rs i r e other)

-- A task of another kind is not awaited.
without-Awaited {ℓ} :
    {A : Type ℓ} (x : Loadable A) (p : Request → Bool) (rs : List Request) (i : ℕ) (r : Request)
    → get_elem? rs i ≡ some r
    → p r ≡ false
    → Awaited x p rs
    → Awaited x p (without i rs)
without-Awaited idle p rs i r e other h = tt
without-Awaited loading p rs i r e other h = omega (arith, count_of-without p rs i r e other)
without-Awaited (loaded a) p rs i r e other h = tt
without-Awaited (failed t) p rs i r e other h = tt

settle-Awaited {ℓ} :
    {A : Type ℓ} (r : Fetched A) (p : Request → Bool) (rs : List Request) → Awaited (settle r) p rs
unfolding settle
settle-Awaited (ok a) p rs = tt
settle-Awaited (err e) p rs = tt

module _ (app : App) (running : List Request) (v : IsConsistent app running) (now i : ℕ) where
  pub ingest-IsConsistent :
      (r : Request) (msg : DataMsg)
      → get_elem? running i ≡ some r
      → Answers r msg
      → IsConsistent (ingest now msg app) (without i running)
  unfolding ingest is_latest_block is_analysis is_failed is_detail is_clusters
  ingest-IsConsistent fetch_latest_block (latest_block x) e a = record {
    counted = omega (arith, v.counted, length-without running i fetch_latest_block e);
    row = v.row;
    cluster_row = v.cluster_row;
    page_size = v.page_size;
    page = v.page;
    category = v.category;
    block_awaited = settle-Awaited x is_latest_block (without i running);
    analysis_awaited =
        without-Awaited app.analysis is_analysis running i fetch_latest_block e refl
          v.analysis_awaited;
    failed_awaited =
        without-Awaited app.failed is_failed running i fetch_latest_block e refl v.failed_awaited;
    detail_awaited =
        without-Awaited app.detail is_detail running i fetch_latest_block e refl v.detail_awaited;
    clusters_awaited =
        without-Awaited app.clusters is_clusters running i fetch_latest_block e refl
          v.clusters_awaited;
  }
  ingest-IsConsistent fetch_analysis (analysis x) e a = record {
    counted = omega (arith, v.counted, length-without running i fetch_analysis e);
    row = v.row;
    cluster_row = v.cluster_row;
    page_size = v.page_size;
    page = v.page;
    category = v.category;
    block_awaited =
        without-Awaited app.latest_block is_latest_block running i fetch_analysis e refl
          v.block_awaited;
    analysis_awaited = settle-Awaited x is_analysis (without i running);
    failed_awaited =
        without-Awaited app.failed is_failed running i fetch_analysis e refl v.failed_awaited;
    detail_awaited =
        without-Awaited app.detail is_detail running i fetch_analysis e refl v.detail_awaited;
    clusters_awaited =
        without-Awaited app.clusters is_clusters running i fetch_analysis e refl v.clusters_awaited;
  }
  ingest-IsConsistent (fetch_failed filter) (failed_list x) e a = record {
    counted = omega (arith, v.counted, length-without running i (fetch_failed filter) e);
    row = clamp_selected-Selected (failed_len (settle x)) app.table_state;
    cluster_row = v.cluster_row;
    page_size = v.page_size;
    page = v.page;
    category = v.category;
    block_awaited =
        without-Awaited app.latest_block is_latest_block running i (fetch_failed filter) e refl
          v.block_awaited;
    analysis_awaited =
        without-Awaited app.analysis is_analysis running i (fetch_failed filter) e refl
          v.analysis_awaited;
    failed_awaited = settle-Awaited x is_failed (without i running);
    detail_awaited =
        without-Awaited app.detail is_detail running i (fetch_failed filter) e refl
          v.detail_awaited;
    clusters_awaited =
        without-Awaited app.clusters is_clusters running i (fetch_failed filter) e refl
          v.clusters_awaited;
  }
  ingest-IsConsistent (fetch_detail hash) (tx_detail x) e a = record {
    counted = omega (arith, v.counted, length-without running i (fetch_detail hash) e);
    row = v.row;
    cluster_row = v.cluster_row;
    page_size = v.page_size;
    page = v.page;
    category = v.category;
    block_awaited =
        without-Awaited app.latest_block is_latest_block running i (fetch_detail hash) e refl
          v.block_awaited;
    analysis_awaited =
        without-Awaited app.analysis is_analysis running i (fetch_detail hash) e refl
          v.analysis_awaited;
    failed_awaited =
        without-Awaited app.failed is_failed running i (fetch_detail hash) e refl v.failed_awaited;
    detail_awaited = settle-Awaited x is_detail (without i running);
    clusters_awaited =
        without-Awaited app.clusters is_clusters running i (fetch_detail hash) e refl
          v.clusters_awaited;
  }
  ingest-IsConsistent fetch_clusters (cluster_rows x) e a = record {
    counted = omega (arith, v.counted, length-without running i fetch_clusters e);
    row = v.row;
    cluster_row = clamp_selected-Selected (cluster_len (settle x)) app.cluster_state;
    page_size = v.page_size;
    page = v.page;
    category = v.category;
    block_awaited =
        without-Awaited app.latest_block is_latest_block running i fetch_clusters e refl
          v.block_awaited;
    analysis_awaited =
        without-Awaited app.analysis is_analysis running i fetch_clusters e refl v.analysis_awaited;
    failed_awaited =
        without-Awaited app.failed is_failed running i fetch_clusters e refl v.failed_awaited;
    detail_awaited =
        without-Awaited app.detail is_detail running i fetch_clusters e refl v.detail_awaited;
    clusters_awaited = settle-Awaited x is_clusters (without i running);
  }
  ingest-IsConsistent _ _ e a = absurd a
