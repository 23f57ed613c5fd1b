-- ===== src/Tui/Invariant/Fetches.antt =====
-- Spawning a fetch keeps the invariant.
use defi_tx_indexer.Prelude.{
  ◌+◌, ◌≤◌, ◌≡◌, refl, Bool, Option, none, some, List, [], ◌∷◌, ◌++◌, Text, length, length-append,
  count_of, count_of-append, arith, append-nil, subst, sym,
}
use defi_tx_indexer.Tui.Event.{Screen, overview, failed_tx, detail, clusters}
use defi_tx_indexer.Tui.App.{
  App, Loadable, idle, loading, loaded, failed, begin, Request, fetch_latest_block, fetch_analysis,
  fetch_failed, fetch_detail, fetch_clusters, failed_len, cluster_len, spawn_fetch_active,
  fetch_screen, fetch_detail_of,
}
use defi_tx_indexer.Tui.Invariant.{
  Awaited, IsConsistent, is_latest_block, is_analysis, is_failed, is_detail, is_clusters,
}

-- More tasks do no harm.
Awaited-append {ℓ} :
    {A : Type ℓ} (x : Loadable A) (p : Request → Bool) (running spawned : List Request)
    → Awaited x p running
    → Awaited x p (running ++ spawned)
Awaited-append idle p running spawned h = tt
Awaited-append loading p running spawned h = omega (arith, count_of-append p running spawned)
Awaited-append (loaded a) p running spawned h = tt
Awaited-append (failed e) p running spawned h = tt

-- Whatever begins to load has its task among the spawned ones.
begin-Awaited {ℓ} :
    {A : Type ℓ} (x : Loadable A) (p : Request → Bool) (running spawned : List Request)
    → 1 ≤ count_of p spawned
    → Awaited (begin x) p (running ++ spawned)
unfolding begin
begin-Awaited idle p running spawned h = omega (arith, count_of-append p running spawned)
begin-Awaited loading p running spawned h = omega (arith, count_of-append p running spawned)
begin-Awaited (loaded a) p running spawned h = tt
begin-Awaited (failed e) p running spawned h = omega (arith, count_of-append p running spawned)

begin-failed_len : (x : Loadable _) → failed_len (begin x) ≡ failed_len x
unfolding begin failed_len
begin-failed_len idle = refl
begin-failed_len loading = refl
begin-failed_len (loaded a) = refl
begin-failed_len (failed e) = refl

begin-cluster_len : (x : Loadable _) → cluster_len (begin x) ≡ cluster_len x
unfolding begin cluster_len
begin-cluster_len idle = refl
begin-cluster_len loading = refl
begin-cluster_len (loaded a) = refl
begin-cluster_len (failed e) = refl

module _ (app : App) (running : List Request) (v : IsConsistent app running) where
  grown : (spawned : List Request) → length spawned + app.inflight ≡ length (running ++ spawned)
  grown spawned = omega (arith, v.counted, length-append running spawned)

  overview-IsConsistent : let r = fetch_screen overview app in IsConsistent r.0 (running ++ r.1)
  unfolding fetch_screen fetch_detail_of count_of is_latest_block is_analysis
  overview-IsConsistent =
      let spawned : List Request = fetch_latest_block ∷ fetch_analysis ∷ [] in
      record {
        counted = omega (arith, grown spawned);
        row = v.row;
        cluster_row = v.cluster_row;
        page_size = v.page_size;
        page = v.page;
        category = v.category;
        block_awaited =
            begin-Awaited app.latest_block is_latest_block running spawned (omega arith);
        analysis_awaited = begin-Awaited app.analysis is_analysis running spawned (omega arith);
        failed_awaited = Awaited-append app.failed is_failed running spawned v.failed_awaited;
        detail_awaited = Awaited-append app.detail is_detail running spawned v.detail_awaited;
        clusters_awaited =
            Awaited-append app.clusters is_clusters running spawned v.clusters_awaited;
      }

  failed_tx-IsConsistent : let r = fetch_screen failed_tx app in IsConsistent r.0 (running ++ r.1)
  unfolding fetch_screen fetch_detail_of count_of is_failed
  failed_tx-IsConsistent =
      let spawned : List Request = fetch_failed app.filter ∷ [] in
      record {
        counted = omega (arith, grown spawned);
        row = rw (begin-failed_len app.failed) v.row;
        cluster_row = v.cluster_row;
        page_size = v.page_size;
        page = v.page;
        category = v.category;
        block_awaited =
            Awaited-append app.latest_block is_latest_block running spawned v.block_awaited;
        analysis_awaited =
            Awaited-append app.analysis is_analysis running spawned v.analysis_awaited;
        failed_awaited = begin-Awaited app.failed is_failed running spawned (omega arith);
        detail_awaited = Awaited-append app.detail is_detail running spawned v.detail_awaited;
        clusters_awaited =
            Awaited-append app.clusters is_clusters running spawned v.clusters_awaited;
      }

  clusters-IsConsistent : let r = fetch_screen clusters app in IsConsistent r.0 (running ++ r.1)
  unfolding fetch_screen fetch_detail_of count_of is_clusters
  clusters-IsConsistent =
      let spawned : List Request = fetch_clusters ∷ [] in
      record {
        counted = omega (arith, grown spawned);
        row = v.row;
        cluster_row = rw (begin-cluster_len app.clusters) v.cluster_row;
        page_size = v.page_size;
        page = v.page;
        category = v.category;
        block_awaited =
            Awaited-append app.latest_block is_latest_block running spawned v.block_awaited;
        analysis_awaited =
            Awaited-append app.analysis is_analysis running spawned v.analysis_awaited;
        failed_awaited = Awaited-append app.failed is_failed running spawned v.failed_awaited;
        detail_awaited = Awaited-append app.detail is_detail running spawned v.detail_awaited;
        clusters_awaited = begin-Awaited app.clusters is_clusters running spawned (omega arith);
      }

  detail-IsConsistent :
      (hash : Text) → let r = fetch_detail_of (some hash) app in IsConsistent r.0 (running ++ r.1)
  unfolding fetch_screen fetch_detail_of count_of is_detail
  detail-IsConsistent hash =
      let spawned : List Request = fetch_detail hash ∷ [] in
      record {
        counted = omega (arith, grown spawned);
        row = v.row;
        cluster_row = v.cluster_row;
        page_size = v.page_size;
        page = v.page;
        category = v.category;
        block_awaited =
            Awaited-append app.latest_block is_latest_block running spawned v.block_awaited;
        analysis_awaited =
            Awaited-append app.analysis is_analysis running spawned v.analysis_awaited;
        failed_awaited = Awaited-append app.failed is_failed running spawned v.failed_awaited;
        detail_awaited = begin-Awaited app.detail is_detail running spawned (omega arith);
        clusters_awaited =
            Awaited-append app.clusters is_clusters running spawned v.clusters_awaited;
      }

  pub unchanged-IsConsistent : IsConsistent app (running ++ [])
  unchanged-IsConsistent = subst (IsConsistent app) (sym (append-nil running)) v

  hash-IsConsistent :
      (hash : Option Text) → let r = fetch_detail_of hash app in IsConsistent r.0 (running ++ r.1)
  hash-IsConsistent none = unfold fetch_detail_of in unchanged-IsConsistent
  hash-IsConsistent (some hash) = detail-IsConsistent hash

  fetch_screen-IsConsistent :
      (s : Screen) → let r = fetch_screen s app in IsConsistent r.0 (running ++ r.1)
  fetch_screen-IsConsistent overview = overview-IsConsistent
  fetch_screen-IsConsistent failed_tx = failed_tx-IsConsistent
  fetch_screen-IsConsistent detail = unfold fetch_screen in hash-IsConsistent app.selected_hash
  fetch_screen-IsConsistent clusters = clusters-IsConsistent

  pub spawn_fetch_active-IsConsistent :
      let r = spawn_fetch_active app in IsConsistent r.0 (running ++ r.1)
  spawn_fetch_active-IsConsistent =
      unfold spawn_fetch_active in fetch_screen-IsConsistent app.screen
