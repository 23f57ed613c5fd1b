-- ===== src/Tui/Invariant/Reached.antt =====
-- The invariant holds in every state that the client reaches.
use defi_tx_indexer.Prelude.{
  ℕ, ◌-◌, min, refl, Bool, true, false, not, Option, none, some, List, [], Text, if◌then◌else◌, ◌+◌,
}
use defi_tx_indexer.Tui.Event
use defi_tx_indexer.Tui.Event.{
  Screen, overview, failed_tx, detail, clusters, Action, KeyEvent, map_key,
}
use defi_tx_indexer.Tui.App.{
  App, new_app, Request, failed_len, cluster_len, spawn_fetch_active, goto_screen, cycle_forward,
  cycle_backward, on_enter, open_detail, selected_row, on_back, on_down, on_up, select_next,
  select_previous,
}
use defi_tx_indexer.Tui.Update.{
  filter_by_category, filter_by_window, go_next_page, go_prev_page, on_failed_tx, apply,
}
use defi_tx_indexer.Tui.Run.{
  Client, start, Step, press, end_of_events, tick, message, Reach, here, next, count_tick, on_tick,
}
use defi_tx_indexer.Tui.Invariant.{IsConsistent}
use defi_tx_indexer.Tui.Invariant.Fetches.{spawn_fetch_active-IsConsistent, unchanged-IsConsistent}
use defi_tx_indexer.Tui.Invariant.Updates.{
  After, others-IsConsistent, rows-IsConsistent, select_next-Selected, select_previous-Selected,
  goto_screen-IsConsistent, category-IsConsistent, window-IsConsistent, next_page-IsConsistent,
  prev_page-IsConsistent,
}
use defi_tx_indexer.Tui.Invariant.Messages.{ingest-IsConsistent}

module _ (app : App) (running : List Request) (v : IsConsistent app running) where
  same : After running (app, [])
  same = unchanged-IsConsistent app running v

  open_detail-IsConsistent : (hash : Option Text) → After running (open_detail hash app)
  unfolding open_detail
  open_detail-IsConsistent none = same
  open_detail-IsConsistent (some h) =
      goto_screen-IsConsistent (record app { selected_hash = some h; detail_scroll = 0 }) running
        (others-IsConsistent app running v app.screen app.prev_screen app.should_quit app.show_help
          app.auto_poll app.tick (some h) 0)
        detail

  on_enter-IsConsistent : After running (on_enter app)
  on_enter-IsConsistent = unfold on_enter in at app.screen
    where
      at :
          (s : Screen)
          → After running (elim s [
            | failed_tx ↦ open_detail (selected_row app.failed app.table_state) app
            | _ ↦ (app, [])
          ])
      at overview = same
      at failed_tx = open_detail-IsConsistent _
      at detail = same
      at clusters = same

  on_back-IsConsistent : After running (on_back app)
  on_back-IsConsistent = unfold on_back in at app.screen
    where
      at :
          (s : Screen)
          → After running (elim s [ detail ↦ goto_screen failed_tx app | _ ↦ (app, []) ])
      at overview = same
      at failed_tx = same
      at detail = goto_screen-IsConsistent app running v failed_tx
      at clusters = same

  on_failed_tx-IsConsistent :
      (f : App → App × List Request) → After running (f app) → After running (on_failed_tx f app)
  on_failed_tx-IsConsistent f h = unfold on_failed_tx in at app.screen
    where
      at : (s : Screen) → After running (elim s [ failed_tx ↦ f app | _ ↦ (app, []) ])
      at overview = same
      at failed_tx = h
      at detail = same
      at clusters = same

  changed : {app' : App} → IsConsistent app' running → After running (app', [])
  changed {app'} w = unchanged-IsConsistent app' running w

  on_down-IsConsistent : IsConsistent (on_down app) running
  on_down-IsConsistent = unfold on_down in at app.screen
    where
      at :
          (s : Screen)
          → IsConsistent
              (elim s [
                | overview ↦ app
                | failed_tx ↦ record app {
                  table_state = select_next (failed_len app.failed) app.table_state;
                }
                | detail ↦ record app { detail_scroll = min (app.detail_scroll + 1) 65535 }
                | clusters ↦ record app {
                  cluster_state = select_next (cluster_len app.clusters) app.cluster_state;
                }
              ])
              running
      at overview = v
      at failed_tx =
          rows-IsConsistent app running v (select_next (failed_len app.failed) app.table_state)
            app.cluster_state (select_next-Selected (failed_len app.failed) app.table_state v.row)
            v.cluster_row
      at detail =
          others-IsConsistent app running v app.screen app.prev_screen app.should_quit app.show_help
            app.auto_poll app.tick app.selected_hash _
      at clusters =
          rows-IsConsistent app running v app.table_state
            (select_next (cluster_len app.clusters) app.cluster_state) v.row
            (select_next-Selected (cluster_len app.clusters) app.cluster_state v.cluster_row)

  on_up-IsConsistent : IsConsistent (on_up app) running
  on_up-IsConsistent = unfold on_up in at app.screen
    where
      at :
          (s : Screen)
          → IsConsistent
              (elim s [
                | overview ↦ app
                | failed_tx ↦ record app {
                  table_state = select_previous (failed_len app.failed) app.table_state;
                }
                | detail ↦ record app { detail_scroll = app.detail_scroll - 1 }
                | clusters ↦ record app {
                  cluster_state = select_previous (cluster_len app.clusters) app.cluster_state;
                }
              ])
              running
      at overview = v
      at failed_tx =
          rows-IsConsistent app running v (select_previous (failed_len app.failed) app.table_state)
            app.cluster_state
            (select_previous-Selected (failed_len app.failed) app.table_state v.row) v.cluster_row
      at detail =
          others-IsConsistent app running v app.screen app.prev_screen app.should_quit app.show_help
            app.auto_poll app.tick app.selected_hash _
      at clusters =
          rows-IsConsistent app running v app.table_state
            (select_previous (cluster_len app.clusters) app.cluster_state) v.row
            (select_previous-Selected (cluster_len app.clusters) app.cluster_state v.cluster_row)

  apply-IsConsistent : (a : Action) → After running (apply a app)
  unfolding apply cycle_forward cycle_backward
  apply-IsConsistent Event.quit = changed (
      others-IsConsistent app running v app.screen app.prev_screen true app.show_help app.auto_poll
        app.tick app.selected_hash app.detail_scroll)
  apply-IsConsistent Event.toggle_help = changed (
      others-IsConsistent app running v app.screen app.prev_screen app.should_quit
        (not app.show_help) app.auto_poll app.tick app.selected_hash app.detail_scroll)
  apply-IsConsistent Event.toggle_auto_poll = changed (
      others-IsConsistent app running v app.screen app.prev_screen app.should_quit app.show_help
        (not app.auto_poll) app.tick app.selected_hash app.detail_scroll)
  apply-IsConsistent Event.refresh_now = spawn_fetch_active-IsConsistent app running v
  apply-IsConsistent Event.next_tab = goto_screen-IsConsistent app running v _
  apply-IsConsistent Event.prev_tab = goto_screen-IsConsistent app running v _
  apply-IsConsistent (Event.select_screen s) = goto_screen-IsConsistent app running v s
  apply-IsConsistent Event.up = changed on_up-IsConsistent
  apply-IsConsistent Event.down = changed on_down-IsConsistent
  apply-IsConsistent Event.enter = on_enter-IsConsistent
  apply-IsConsistent Event.back = on_back-IsConsistent
  apply-IsConsistent Event.cycle_category =
      on_failed_tx-IsConsistent filter_by_category (category-IsConsistent app running v)
  apply-IsConsistent Event.cycle_window =
      on_failed_tx-IsConsistent filter_by_window (window-IsConsistent app running v)
  apply-IsConsistent Event.next_page =
      on_failed_tx-IsConsistent (λ a. go_next_page a.failed a)
        (next_page-IsConsistent app running v app.failed)
  apply-IsConsistent Event.prev_page =
      on_failed_tx-IsConsistent go_prev_page (prev_page-IsConsistent app running v)
  apply-IsConsistent Event.ignore = same

  counted_tick : (n : ℕ) → IsConsistent (record app { tick = n }) running
  counted_tick n =
      others-IsConsistent app running v app.screen app.prev_screen app.should_quit app.show_help
        app.auto_poll n app.selected_hash app.detail_scroll

  on_tick-IsConsistent : After running (on_tick app)
  on_tick-IsConsistent = at app.auto_poll
    where
      at :
          (b : Bool)
          → After running (if b then spawn_fetch_active (count_tick app) else (count_tick app, []))
      at true = spawn_fetch_active-IsConsistent (count_tick app) running (counted_tick _)
      at false = changed (counted_tick _)

Step-IsConsistent :
    {s t : Client} → Step s t → IsConsistent s.app s.running → IsConsistent t.app t.running
Step-IsConsistent (press s key h) v =
    apply-IsConsistent s.app s.running v (map_key key s.app.show_help)
Step-IsConsistent (end_of_events s h) v =
    others-IsConsistent s.app s.running v s.app.screen s.app.prev_screen true s.app.show_help
      s.app.auto_poll s.app.tick s.app.selected_hash s.app.detail_scroll
Step-IsConsistent (tick s h) v = on_tick-IsConsistent s.app s.running v
Step-IsConsistent (message s i now r msg h e a) v =
    ingest-IsConsistent s.app s.running v now i r msg e a

start-IsConsistent : IsConsistent start.app start.running
start-IsConsistent = spawn_fetch_active-IsConsistent new_app [] (
    unfold failed_len cluster_len in
    record {
      counted = refl;
      row = refl;
      cluster_row = refl;
      page_size = refl;
      page = refl;
      category = tt;
      block_awaited = tt;
      analysis_awaited = tt;
      failed_awaited = tt;
      detail_awaited = tt;
      clusters_awaited = tt;
    })

-- In every state that the client reaches, whatever the keys, the ticks and the answers are: the
-- counter of the fetches is the number of the tasks that run; the selection of each table is a row
-- of it, or none for an empty table; the offset of the filter is a multiple of its page size of 20,
-- and its category is none or one of the ten; and whatever is shown as loading has a running task
-- of its kind.
pub Reach-IsConsistent : {s : Client} → Reach start s → IsConsistent s.app s.running
Reach-IsConsistent here = start-IsConsistent
Reach-IsConsistent (next r st) = Step-IsConsistent st (Reach-IsConsistent r)
