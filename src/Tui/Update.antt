-- ===== src/Tui/Update.antt =====
-- crates/tui/src/app.rs: the filter and its pages, `apply` and `ingest`.
use defi_tx_indexer.Prelude.{
  ℕ, suc, ◌+◌, ◌-◌, true, not, Option, none, some, List, [], ◌∷◌, Text, text_eq, ltb, if◌then◌else◌,
  get_elem?, head?, max_zero, unwrap_or,
}
use defi_tx_indexer.Tui.Dto.{FailedTransaction, TotalPaginated}
use defi_tx_indexer.Tui.Format.{categories}
use defi_tx_indexer.Tui.Event.{
  failed_tx, Action, quit, next_tab, prev_tab, select_screen, up, down, enter, back, cycle_category,
  cycle_window, next_page, prev_page, refresh_now, toggle_auto_poll, toggle_help, ignore, DataMsg,
  latest_block, analysis, failed_list, tx_detail, cluster_rows,
}
use defi_tx_indexer.Tui.App.{
  App, Request, Loadable, loaded, next_window, settle, failed_len, cluster_len, clamp_selected,
  spawn_fetch_active, goto_screen, cycle_forward, cycle_backward, on_enter, on_back, on_down, on_up,
}

-- The first place of a text in a list, counted from a number.
unfoldable position_from : ℕ → Text → List Text → Option ℕ
position_from i s [] = none
position_from i s (t ∷ ts) =
    let rest = position_from (suc i) s ts in if text_eq t s then some i else rest

unfoldable pub next_category : Option Text → Option Text
unfolding position_from
next_category none = head? categories
next_category (some current) =
    get_elem? categories (unwrap_or (position_from 0 current categories) 0 + 1)

-- `cycle_category` and `cycle_window`
unfoldable pub filter_by_category : App → App × List Request
unfolding next_category
filter_by_category app = spawn_fetch_active (record app {
  filter = record app.filter { category = next_category app.filter.category; offset = 0 };
})

unfoldable pub filter_by_window : App → App × List Request
filter_by_window app = spawn_fetch_active (record app {
  filter = record app.filter { window = next_window app.filter.window; offset = 0 };
})

unfoldable pub go_next_page : Loadable (TotalPaginated FailedTransaction) → App → App × List Request
go_next_page (loaded p) app =
    if ltb (app.filter.offset + app.filter.limit) (max_zero p.pagination.total)
    then spawn_fetch_active (record app {
      filter = record app.filter { offset = app.filter.offset + app.filter.limit };
    })
    else (app, [])
go_next_page _ app = (app, [])

unfoldable pub go_prev_page : App → App × List Request
go_prev_page app =
    if ltb 0 app.filter.offset
    then spawn_fetch_active (record app {
      filter = record app.filter { offset = app.filter.offset - app.filter.limit };
    })
    else (app, [])

-- Only on the screen of the failed transactions.
unfoldable pub on_failed_tx : (App → App × List Request) → App → App × List Request
on_failed_tx f app = elim app.screen [ failed_tx ↦ f app | _ ↦ (app, []) ]

unfoldable pub apply : Action → App → App × List Request
unfolding on_failed_tx
apply quit app = (record app { should_quit = true }, [])
apply toggle_help app = (record app { show_help = not app.show_help }, [])
apply toggle_auto_poll app = (record app { auto_poll = not app.auto_poll }, [])
apply refresh_now app = spawn_fetch_active app
apply next_tab app = cycle_forward app
apply prev_tab app = cycle_backward app
apply (select_screen s) app = goto_screen s app
apply up app = (on_up app, [])
apply down app = (on_down app, [])
apply enter app = on_enter app
apply back app = on_back app
apply cycle_category app = on_failed_tx filter_by_category app
apply cycle_window app = on_failed_tx filter_by_window app
apply next_page app = on_failed_tx (λ a. go_next_page a.failed a) app
apply prev_page app = on_failed_tx go_prev_page app
apply ignore app = (app, [])

-- What a message puts in the state.
unfoldable take_message : DataMsg → App → App
unfolding settle
take_message (latest_block r) app = record app { latest_block = settle r }
take_message (analysis r) app = record app { analysis = settle r }
take_message (failed_list r) app = record app {
  failed = settle r;
  table_state = clamp_selected (failed_len (settle r)) app.table_state;
}
take_message (tx_detail r) app = record app { detail = settle r }
take_message (cluster_rows r) app = record app {
  clusters = settle r;
  cluster_state = clamp_selected (cluster_len (settle r)) app.cluster_state;
}

unfoldable pub ingest : ℕ → DataMsg → App → App
unfolding take_message
ingest now msg app =
    take_message msg (record app { inflight = app.inflight - 1; last_updated = some now })
