-- ===== src/Tui/Run.antt =====
-- crates/tui/src/app.rs: the event loop `run`, as a relation: what comes next (a key, a tick, a
-- message of a fetch task) is open, and a task may answer at any time and with any result.
use defi_tx_indexer.Prelude.{
  ℕ, zero, suc, ◌+◌, ◌%◌, ◌≡◌, true, false, some, List, [], ◌∷◌, ◌++◌, if◌then◌else◌, get_elem?,
}
use defi_tx_indexer.Tui.Event.{
  KeyEvent, map_key, DataMsg, latest_block, analysis, failed_list, tx_detail, cluster_rows,
}
use defi_tx_indexer.Tui.App.{
  App, new_app, Request, fetch_latest_block, fetch_analysis, fetch_failed, fetch_detail,
  fetch_clusters, spawn_fetch_active,
}
use defi_tx_indexer.Tui.Update.{apply, ingest}

-- The state of the client and the fetch tasks that have not answered.
pub record Client : Type 0 where
  pub app : App
  pub running : List Request

abbrev pub then_run : List Request → App × List Request → Client
then_run running (app, spawned) = record { app = app; running = running ++ spawned }

-- The first fetch is that of the first screen.
abbrev pub start : Client
start = then_run [] (spawn_fetch_active new_app)

-- `wrapping_add` on a `u64`
abbrev pub count_tick : App → App
count_tick app = record app { tick = (app.tick + 1) % 18446744073709551616 }

abbrev pub on_tick : App → App × List Request
on_tick app = if app.auto_poll then spawn_fetch_active (count_tick app) else (count_tick app, [])

-- The message that a task sends.
abbrev pub Answers : Request → DataMsg → Type 0
Answers fetch_latest_block (latest_block r) = Unit
Answers fetch_analysis (analysis r) = Unit
Answers (fetch_failed filter) (failed_list r) = Unit
Answers (fetch_detail hash) (tx_detail r) = Unit
Answers fetch_clusters (cluster_rows r) = Unit
Answers _ _ = ⊥

-- The running tasks without the one at a place.
unfoldable pub without : ℕ → List Request → List Request
without i [] = []
without zero (r ∷ rs) = rs
without (suc i) (r ∷ rs) = r ∷ without i rs

-- One turn of the loop, which stops when `should_quit` is set.
pub data Step : Client → Client → Type 0 where
  press :
      (s : Client) (key : KeyEvent)
      → s.app.should_quit ≡ false
      → Step s (then_run s.running (apply (map_key key s.app.show_help) s.app))
  end_of_events :
      (s : Client)
      → s.app.should_quit ≡ false
      → Step s (record s { app = record s.app { should_quit = true } })
  tick : (s : Client) → s.app.should_quit ≡ false → Step s (then_run s.running (on_tick s.app))
  message :
      (s : Client) (i now : ℕ) (r : Request) (msg : DataMsg)
      → s.app.should_quit ≡ false
      → get_elem? s.running i ≡ some r
      → Answers r msg
      → Step s (record { app = ingest now msg s.app; running = without i s.running })

pub data Reach (s : Client) : Client → Type 0 where
  here : Reach s s
  next : {t u : Client} → Reach s t → Step t u → Reach s u
