-- ===== src/Tui/Invariant/Updates.antt =====
-- Every action keeps the invariant.
use defi_tx_indexer.Prelude.{
  ℕ, zero, suc, ◌+◌, ◌%◌, ◌≤◌, ◌≡◌, ◌||◌, inl, inr, refl, Bool, true, Option, none, some, List, [],
  ◌∷◌, ◌++◌, Text, text_eq, text_eq_refl, get_elem?, count_of, arith, ltb, Bool-cases, Option-cases,
  max_zero,
}
use defi_tx_indexer.Tui.Format.{categories}
use defi_tx_indexer.Tui.Event.{Screen}
use defi_tx_indexer.Tui.App.{
  App, FailedTxFilter, Loadable, idle, loading, loaded, failed, Request, failed_len, cluster_len,
  spawn_fetch_active, index, goto_screen, select_next, select_previous,
}
use defi_tx_indexer.Tui.Update.{
  next_category, filter_by_category, filter_by_window, go_next_page, go_prev_page,
}
use defi_tx_indexer.Tui.Invariant.{Selected, IsFilter, IsConsistent}
use defi_tx_indexer.Tui.Invariant.Fetches.{spawn_fetch_active-IsConsistent, unchanged-IsConsistent}

-- The state that an operation leaves, with the tasks that it spawns.
abbrev pub After : List Request → App × List Request → Type 0
After running r = IsConsistent r.0 (running ++ r.1)

pub select_next-Selected :
    (len : ℕ) (o : Option ℕ) → Selected len o → Selected len (select_next len o)
unfolding select_next
select_next-Selected len none h = ground arith
select_next-Selected len (some i) h = ground arith

pub select_previous-Selected :
    (len : ℕ) (o : Option ℕ) → Selected len o → Selected len (select_previous len o)
unfolding select_previous
select_previous-Selected len none h = ground arith
select_previous-Selected len (some i) h = ground arith

elem-counted :
    (xs : List Text) (i : ℕ) (c : Text) → get_elem? xs i ≡ some c → 1 ≤ count_of (text_eq c) xs
unfolding count_of
elem-counted [] i c e = absurd (ground arith)
elem-counted (x ∷ xs) zero c e =
    let same : text_eq c x ≡ true = let eq : x ≡ c = cc in rw eq (text_eq_refl c) in
    rw same (omega arith)
elem-counted (x ∷ xs) (suc i) c e = omega (arith, elem-counted xs i c e)

elem-IsFilter : (i : ℕ) → IsFilter (get_elem? categories i)
elem-IsFilter i = elim (Option-cases (get_elem? categories i)) [
  | inl e ↦ rw e tt
  | inr (c, e) ↦ rw e (elem-counted categories i c e)
]

next_category-IsFilter : (o : Option Text) → IsFilter (next_category o)
unfolding next_category
next_category-IsFilter none = elem-IsFilter 0
next_category-IsFilter (some c) = elem-IsFilter _

module _ (app : App) (running : List Request) (v : IsConsistent app running) where
  -- The fields that the invariant does not read may change.
  pub others-IsConsistent :
      (screen prev_screen : Screen) (should_quit show_help auto_poll : Bool) (tick : ℕ)
      (hash : Option Text) (scroll : ℕ)
      → IsConsistent
          (record app {
            screen = screen;
            prev_screen = prev_screen;
            should_quit = should_quit;
            show_help = show_help;
            auto_poll = auto_poll;
            tick = tick;
            selected_hash = hash;
            detail_scroll = scroll;
          })
          running
  others-IsConsistent screen prev_screen should_quit show_help auto_poll tick hash scroll = record {
    counted = v.counted;
    row = v.row;
    cluster_row = v.cluster_row;
    page_size = v.page_size;
    page = v.page;
    category = v.category;
    block_awaited = v.block_awaited;
    analysis_awaited = v.analysis_awaited;
    failed_awaited = v.failed_awaited;
    detail_awaited = v.detail_awaited;
    clusters_awaited = v.clusters_awaited;
  }

  pub rows-IsConsistent :
      (row cluster_row : Option ℕ)
      → Selected (failed_len app.failed) row
      → Selected (cluster_len app.clusters) cluster_row
      → IsConsistent (record app { table_state = row; cluster_state = cluster_row }) running
  rows-IsConsistent row cluster_row h k = record {
    counted = v.counted;
    row = h;
    cluster_row = k;
    page_size = v.page_size;
    page = v.page;
    category = v.category;
    block_awaited = v.block_awaited;
    analysis_awaited = v.analysis_awaited;
    failed_awaited = v.failed_awaited;
    detail_awaited = v.detail_awaited;
    clusters_awaited = v.clusters_awaited;
  }

  filter-IsConsistent :
      (filter : FailedTxFilter)
      → filter.limit ≡ 20
      → filter.offset % 20 ≡ 0
      → IsFilter filter.category
      → IsConsistent (record app { filter = filter }) running
  filter-IsConsistent filter h k c = record {
    counted = v.counted;
    row = v.row;
    cluster_row = v.cluster_row;
    page_size = h;
    page = k;
    category = c;
    block_awaited = v.block_awaited;
    analysis_awaited = v.analysis_awaited;
    failed_awaited = v.failed_awaited;
    detail_awaited = v.detail_awaited;
    clusters_awaited = v.clusters_awaited;
  }

  filtered :
      (filter : FailedTxFilter)
      → filter.limit ≡ 20
      → filter.offset % 20 ≡ 0
      → IsFilter filter.category
      → After running (spawn_fetch_active (record app { filter = filter }))
  filtered filter h k c =
      spawn_fetch_active-IsConsistent (record app { filter = filter }) running
        (filter-IsConsistent filter h k c)

  pub category-IsConsistent : After running (filter_by_category app)
  unfolding filter_by_category
  category-IsConsistent = filtered _ v.page_size refl (next_category-IsFilter app.filter.category)

  pub window-IsConsistent : After running (filter_by_window app)
  unfolding filter_by_window
  window-IsConsistent = filtered _ v.page_size refl v.category

  pub next_page-IsConsistent : (x : Loadable _) → After running (go_next_page x app)
  unfolding go_next_page
  next_page-IsConsistent idle = unchanged-IsConsistent app running v
  next_page-IsConsistent loading = unchanged-IsConsistent app running v
  next_page-IsConsistent (failed e) = unchanged-IsConsistent app running v
  next_page-IsConsistent (loaded p) =
      elim (Bool-cases (ltb (app.filter.offset + app.filter.limit) (max_zero p.pagination.total))) [
        | inl e ↦ rw e (filtered _ v.page_size (omega (arith, v.page_size, v.page)) v.category)
        | inr e ↦ rw e (unchanged-IsConsistent app running v)
      ]

  pub prev_page-IsConsistent : After running (go_prev_page app)
  unfolding go_prev_page
  prev_page-IsConsistent = elim (Bool-cases (ltb 0 app.filter.offset)) [
    | inl e ↦ rw e (filtered _ v.page_size (omega (arith, v.page_size, v.page)) v.category)
    | inr e ↦ rw e (unchanged-IsConsistent app running v)
  ]

  pub goto_screen-IsConsistent : (s : Screen) → After running (goto_screen s app)
  unfolding goto_screen
  goto_screen-IsConsistent s =
      elim (Bool-cases (ltb (index app.screen) (index s) || ltb (index s) (index app.screen))) [
        | inl e ↦ rw e (
            spawn_fetch_active-IsConsistent (record app { prev_screen = app.screen; screen = s })
              running
              (others-IsConsistent s app.screen app.should_quit app.show_help app.auto_poll app.tick
                app.selected_hash app.detail_scroll))
        | inr e ↦ rw e (unchanged-IsConsistent app running v)
      ]
