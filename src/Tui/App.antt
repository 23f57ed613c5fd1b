-- ===== src/Tui/App.antt =====
-- crates/tui/src/app.rs: the state of the client and its transitions. An operation returns the fetch
-- tasks that it spawns beside the new state. `i64` and `i32` values that start at zero and are never
-- made negative are natural numbers.
use defi_tx_indexer.Prelude.{
  ℕ, ◌+◌, ◌-◌, ◌%◌, min, Bool, true, false, ◌||◌, Option, none, some, List, [], ◌∷◌, ◌++◌, Text,
  codes, ltb, leb, if◌then◌else◌, length, get_elem?, ℤ, unwrap_or,
}
use defi_tx_indexer.Trace.{decimal}
use defi_tx_indexer.Tui.Dto.{
  FailedTransaction, FailedTxAnalysis, FailedTxDetail, TotalPaginated, UnknownRevertCluster,
}
use defi_tx_indexer.Tui.Event.{Screen, overview, failed_tx, detail, clusters, Fetched, ok, err}

unfoldable pub index : Screen → ℕ
index overview = 0
index failed_tx = 1
index detail = 2
index clusters = 3

abbrev screen_order : List Screen
screen_order = overview ∷ failed_tx ∷ detail ∷ clusters ∷ []

pub data TimeWindow : Type 0 where
  all_time : TimeWindow
  h24 : TimeWindow
  d7 : TimeWindow
  d30 : TimeWindow

-- `TimeWindow::next`
unfoldable pub next_window : TimeWindow → TimeWindow
next_window all_time = h24
next_window h24 = d7
next_window d7 = d30
next_window d30 = all_time

-- The start of a window, in seconds before now.
unfoldable window_secs : TimeWindow → Option ℕ
window_secs all_time = none
window_secs h24 = some 86400
window_secs d7 = some 604800
window_secs d30 = some 2592000

pub data Loadable {ℓ} (A : Type ℓ) : Type ℓ where
  idle : Loadable A
  loading : Loadable A
  loaded : A → Loadable A
  failed : Text → Loadable A

pub record FailedTxFilter : Type 0 where
  pub category : Option Text
  pub window : TimeWindow
  pub limit : ℕ
  pub offset : ℕ

-- `query_pairs`, at a time in seconds and with the format of times.
unfoldable query_pairs : (ℕ → Text) → ℕ → FailedTxFilter → List (Text × Text)
unfolding window_secs
query_pairs to_rfc3339 now filter =
    (codes "limit", decimal 20 filter.limit)
    ∷ (codes "offset", decimal 20 filter.offset)
    ∷ (elim filter.category [ none ↦ [] | some c ↦ (codes "category", c) ∷ [] ]
        ++ elim (window_secs filter.window) [
          | none ↦ []
          | some secs ↦ (codes "from", to_rfc3339 (now - secs)) ∷ []
        ])

-- A fetch task; that of the list has the filter at its start.
pub data Request : Type 0 where
  fetch_latest_block : Request
  fetch_analysis : Request
  fetch_failed : FailedTxFilter → Request
  fetch_detail : Text → Request
  fetch_clusters : Request

-- `App` but for its configuration, client and channel.
pub record App : Type 0 where
  pub screen : Screen
  pub prev_screen : Screen
  pub should_quit : Bool
  pub show_help : Bool
  pub auto_poll : Bool
  pub tick : ℕ
  pub inflight : ℕ
  pub last_updated : Option ℕ
  pub latest_block : Loadable (Option ℤ)
  pub analysis : Loadable (List FailedTxAnalysis)
  pub failed : Loadable (TotalPaginated FailedTransaction)
  pub table_state : Option ℕ
  pub filter : FailedTxFilter
  pub detail : Loadable FailedTxDetail
  pub detail_scroll : ℕ
  pub selected_hash : Option Text
  pub clusters : Loadable (List UnknownRevertCluster)
  pub cluster_state : Option ℕ

-- `App::new`
abbrev pub new_app : App
new_app = record {
  screen = overview;
  prev_screen = overview;
  should_quit = false;
  show_help = false;
  auto_poll = true;
  tick = 0;
  inflight = 0;
  last_updated = none;
  latest_block = idle;
  analysis = idle;
  failed = idle;
  table_state = none;
  filter = record { category = none; window = all_time; limit = 20; offset = 0 };
  detail = idle;
  detail_scroll = 0;
  selected_hash = none;
  clusters = idle;
  cluster_state = none;
}

unfoldable pub begin {ℓ} : {A : Type ℓ} → Loadable A → Loadable A
begin idle = loading
begin loading = loading
begin (loaded a) = loaded a
begin (failed e) = loading

unfoldable pub settle {ℓ} : {A : Type ℓ} → Fetched A → Loadable A
settle (ok a) = loaded a
settle (err e) = failed e

-- How many rows a loaded table shows.
unfoldable pub failed_len : Loadable (TotalPaginated FailedTransaction) → ℕ
failed_len (loaded p) = length p.items
failed_len _ = 0

unfoldable pub cluster_len : Loadable (List UnknownRevertCluster) → ℕ
cluster_len (loaded rows) = length rows
cluster_len _ = 0

-- `spawn_fetch_active`
unfoldable pub fetch_detail_of : Option Text → App → App × List Request
unfolding begin
fetch_detail_of none app = (app, [])
fetch_detail_of (some hash) app =
    (record app { detail = begin app.detail; inflight = app.inflight + 1 }, fetch_detail hash ∷ [])

unfoldable pub fetch_screen : Screen → App → App × List Request
unfolding begin fetch_detail_of
fetch_screen overview app = (
  record app {
    latest_block = begin app.latest_block;
    analysis = begin app.analysis;
    inflight = app.inflight + 2;
  },
  fetch_latest_block ∷ fetch_analysis ∷ [],
)
fetch_screen failed_tx app = (
  record app { failed = begin app.failed; inflight = app.inflight + 1 },
  fetch_failed app.filter ∷ [],
)
fetch_screen detail app = fetch_detail_of app.selected_hash app
fetch_screen clusters app =
    (record app { clusters = begin app.clusters; inflight = app.inflight + 1 }, fetch_clusters ∷ [])

unfoldable pub spawn_fetch_active : App → App × List Request
unfolding fetch_screen
spawn_fetch_active app = fetch_screen app.screen app

unfoldable pub goto_screen : Screen → App → App × List Request
unfolding index spawn_fetch_active
goto_screen s app =
    if ltb (index app.screen) (index s) || ltb (index s) (index app.screen)
    then spawn_fetch_active (record app { prev_screen = app.screen; screen = s })
    else (app, [])

-- `cycle_screen`, by 1 and by -1
unfoldable pub cycle_forward : App → App × List Request
unfolding goto_screen
cycle_forward app =
    goto_screen (unwrap_or (get_elem? screen_order ((index app.screen + 1) % 4)) overview) app

unfoldable pub cycle_backward : App → App × List Request
unfolding goto_screen
cycle_backward app =
    goto_screen (unwrap_or (get_elem? screen_order ((index app.screen + 3) % 4)) overview) app

-- The hash of the selected row of a loaded list.
unfoldable pub selected_row : Loadable (TotalPaginated FailedTransaction) → Option ℕ → Option Text
selected_row (loaded p) (some i) = elim (get_elem? p.items i) [
  | none ↦ none
  | some r ↦ some r.tx_hash
]
selected_row _ _ = none

unfoldable pub open_detail : Option Text → App → App × List Request
unfolding goto_screen
open_detail none app = (app, [])
open_detail (some h) app =
    goto_screen detail (record app { selected_hash = some h; detail_scroll = 0 })

unfoldable pub on_enter : App → App × List Request
unfolding open_detail selected_row
on_enter app = elim app.screen [
  | failed_tx ↦ open_detail (selected_row app.failed app.table_state) app
  | _ ↦ (app, [])
]

unfoldable pub on_back : App → App × List Request
unfolding goto_screen
on_back app = elim app.screen [ detail ↦ goto_screen failed_tx app | _ ↦ (app, []) ]

-- The selection one row on or back, in a table of some rows.
unfoldable pub select_next : ℕ → Option ℕ → Option ℕ
select_next len selected =
    if leb len 0 then selected else some (min (unwrap_or selected 0 + 1) (len - 1))

unfoldable pub select_previous : ℕ → Option ℕ → Option ℕ
select_previous len selected =
    if leb len 0 then selected else some (min (unwrap_or selected 0 - 1) (len - 1))

unfoldable pub clamp_selected : ℕ → Option ℕ → Option ℕ
clamp_selected len none = if leb len 0 then none else some 0
clamp_selected len (some i) =
    if leb len 0 then none else if leb len i then some (len - 1) else some i

unfoldable pub on_down : App → App
unfolding select_next failed_len cluster_len
on_down app = elim app.screen [
  | overview ↦ app
  | failed_tx ↦ record app { table_state = select_next (failed_len app.failed) app.table_state }
  | detail ↦ record app { detail_scroll = min (app.detail_scroll + 1) 65535 }
  | clusters ↦ record app {
    cluster_state = select_next (cluster_len app.clusters) app.cluster_state;
  }
]

unfoldable pub on_up : App → App
unfolding select_previous failed_len cluster_len
on_up app = elim app.screen [
  | overview ↦ app
  | failed_tx ↦ record app { table_state = select_previous (failed_len app.failed) app.table_state }
  | detail ↦ record app { detail_scroll = app.detail_scroll - 1 }
  | clusters ↦ record app {
    cluster_state = select_previous (cluster_len app.clusters) app.cluster_state;
  }
]
