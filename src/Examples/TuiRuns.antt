-- ===== src/Examples/TuiRuns.antt =====
-- The terminal client after a few events.
use defi_tx_indexer.Prelude.{
  ◌≡◌, ◌-◌, ◌/◌, refl, false, some, codes, length, count_of, pos, negsuc, get_elem?,
}
use defi_tx_indexer.Trace.{decimal}
use defi_tx_indexer.Db.Category.{slippage_amount_in, as_wire, from_str}
use defi_tx_indexer.Tui.Event.{KeyEvent, char, map_key, latest_block, ok}
use defi_tx_indexer.Tui.App.{goto_screen, fetch_latest_block, spawn_fetch_active, fetch_screen}
use defi_tx_indexer.Tui.Update.{apply, ingest}
use defi_tx_indexer.Tui.Run.{Client, start, then_run, without, press, message, here, next}
use defi_tx_indexer.Tui.Invariant.{IsConsistent}
use defi_tx_indexer.Tui.Invariant.Reached.{Reach-IsConsistent}
use defi_tx_indexer.Tui.Format.{normalize_category, group_thousands, digits_of, ago}
use defi_tx_indexer.Tui.Format.Categories.{serialized, normalize_category-serialized}
use defi_tx_indexer.Tui.Format.Thousands.{
  without_commas, IsGrouped, is_comma, signed, group_thousands_lem,
}

abbrev key_2 : KeyEvent
key_2 = record { code = char b'2'; control = false }

-- Behind the key that shows the list.
abbrev at_list : Client
at_list = then_run start.running (apply (map_key key_2 start.app.show_help) start.app)

-- Behind the answer of the first task.
abbrev answered : Client
answered = record {
  app = ingest 5 (latest_block (ok (some (pos 9)))) at_list.app;
  running = without 0 at_list.running;
}

at_list-quit : at_list.app.should_quit ≡ false
unfolding spawn_fetch_active fetch_screen apply map_key goto_screen
at_list-quit = refl

first_task : get_elem? at_list.running 0 ≡ some fetch_latest_block
unfolding spawn_fetch_active fetch_screen apply map_key goto_screen
first_task = refl

Reach-IsConsistent_example : IsConsistent answered.app answered.running
Reach-IsConsistent_example = Reach-IsConsistent (
    next (next here (press start key_2 (unfold spawn_fetch_active fetch_screen in refl))) (
      message at_list 0 5 fetch_latest_block (latest_block (ok (some (pos 9)))) at_list-quit
        first_task tt))

normalize_category-serialized_example :
    (normalize_category (serialized slippage_amount_in) ≡ as_wire slippage_amount_in)
    × (normalize_category (as_wire slippage_amount_in) ≡ as_wire slippage_amount_in)
    × (from_str (normalize_category (serialized slippage_amount_in)) ≡ some slippage_amount_in)
normalize_category-serialized_example = normalize_category-serialized slippage_amount_in

group_thousands_lem_example :
    (without_commas (group_thousands (negsuc 1233)) ≡ signed (negsuc 1233))
    × IsGrouped (group_thousands (negsuc 1233))
    × (count_of is_comma (group_thousands (negsuc 1233))
        ≡ (length (digits_of (negsuc 1233)) - 1) / 3)
group_thousands_lem_example = group_thousands_lem (negsuc 1233)

group_thousands_test : group_thousands (negsuc 1233) ≡ codes "-1,234"
unfolding group_thousands decimal
group_thousands_test = refl

ago_test : ago 7200 ≡ codes "2h ago"
unfolding ago
ago_test = refl
