-- ===== src/Tui/Event.antt =====
-- crates/tui/src/event.rs: the intents of the keys, and the messages of the fetch tasks.
use defi_tx_indexer.Prelude.{ℕ, Bool, false, ◌&&◌, Option, List, Text, ℤ, ◌==◌, if◌then◌else◌}
use defi_tx_indexer.Tui.Dto.{
  FailedTransaction, FailedTxAnalysis, FailedTxDetail, TotalPaginated, UnknownRevertCluster,
}

-- `Screen` of app.rs
pub data Screen : Type 0 where
  overview : Screen
  failed_tx : Screen
  detail : Screen
  clusters : Screen

pub data Action : Type 0 where
  quit : Action
  next_tab : Action
  prev_tab : Action
  select_screen : Screen → Action
  up : Action
  down : Action
  enter : Action
  back : Action
  cycle_category : Action
  cycle_window : Action
  next_page : Action
  prev_page : Action
  refresh_now : Action
  toggle_auto_poll : Action
  toggle_help : Action
  ignore : Action

-- A result of a fetch task, whose error is a text.
pub data Fetched {ℓ} (A : Type ℓ) : Type ℓ where
  ok : A → Fetched A
  err : Text → Fetched A

pub data DataMsg : Type 0 where
  latest_block : Fetched (Option ℤ) → DataMsg
  analysis : Fetched (List FailedTxAnalysis) → DataMsg
  failed_list : Fetched (TotalPaginated FailedTransaction) → DataMsg
  tx_detail : Fetched FailedTxDetail → DataMsg
  cluster_rows : Fetched (List UnknownRevertCluster) → DataMsg

-- The keys that the client tells apart; a character is its code.
pub data KeyCode : Type 0 where
  char : ℕ → KeyCode
  tab : KeyCode
  back_tab : KeyCode
  esc : KeyCode
  enter_key : KeyCode
  arrow_up : KeyCode
  arrow_down : KeyCode
  page_up : KeyCode
  page_down : KeyCode
  other_key : KeyCode

pub record KeyEvent : Type 0 where
  pub code : KeyCode
  pub control : Bool

unfoldable pub is_char : ℕ → KeyCode → Bool
is_char c (char d) = d == c
is_char c _ = false

-- The keys while the help is shown.
unfoldable pub help_key : KeyCode → Action
help_key (char c) = if c == b'?' then toggle_help else if c == b'q' then toggle_help else ignore
help_key esc = toggle_help
help_key _ = ignore

unfoldable char_key : ℕ → Action
char_key c =
    if c == b'q'
    then quit
    else if c == b'?'
    then toggle_help
    else if c == b'r'
    then refresh_now
    else if c == b'p'
    then toggle_auto_poll
    else if c == b'1'
    then select_screen overview
    else if c == b'2'
    then select_screen failed_tx
    else if c == b'3'
    then select_screen detail
    else if c == b'4'
    then select_screen clusters
    else if c == b'j'
    then down
    else if c == b'k'
    then up
    else if c == b'c'
    then cycle_category
    else if c == b't'
    then cycle_window
    else if c == b'n'
    then next_page
    else if c == b'b'
    then prev_page
    else ignore

unfoldable plain_key : KeyCode → Action
unfolding char_key
plain_key (char c) = char_key c
plain_key tab = next_tab
plain_key back_tab = prev_tab
plain_key esc = back
plain_key enter_key = enter
plain_key arrow_down = down
plain_key arrow_up = up
plain_key page_down = next_page
plain_key page_up = prev_page
plain_key other_key = ignore

unfoldable pub map_key : KeyEvent → Bool → Action
unfolding is_char help_key plain_key
map_key key show_help =
    if key.control && is_char b'c' key.code
    then quit
    else if show_help
    then help_key key.code
    else plain_key key.code
