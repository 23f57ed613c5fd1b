-- ===== src/Tui/Help.antt =====
-- The keys while the help is shown.
use defi_tx_indexer.Prelude.{◌≡◌, ◌⊎◌, inl, inr, refl, true, false, ◌&&◌, [], arith, Bool-cases}
use defi_tx_indexer.Tui.Event.{
  KeyCode, char, tab, back_tab, esc, enter_key, arrow_up, arrow_down, page_up, page_down, other_key,
  KeyEvent, toggle_help, ignore, map_key, help_key, is_char,
}
use defi_tx_indexer.Tui.App.{App}
use defi_tx_indexer.Tui.Update.{apply}

help_key-cases : (code : KeyCode) → (help_key code ≡ toggle_help) ⊎ (help_key code ≡ ignore)
unfolding help_key
help_key-cases (char c) = ground arith
help_key-cases esc = inl refl
help_key-cases tab = inr refl
help_key-cases back_tab = inr refl
help_key-cases enter_key = inr refl
help_key-cases arrow_up = inr refl
help_key-cases arrow_down = inr refl
help_key-cases page_up = inr refl
help_key-cases page_down = inr refl
help_key-cases other_key = inr refl

-- While the help is shown, a key does one of three things and nothing else: it leaves the client,
-- which only Ctrl-C does, it closes the help, or it changes nothing; no fetch is spawned.
help_is_modal :
    (key : KeyEvent) (app : App)
    → app.show_help ≡ true
    → let r = apply (map_key key app.show_help) app in
      ((key.control && is_char b'c' key.code ≡ true)
        × (r ≡ (record app { should_quit = true }, [])))
      ⊎ (r ≡ (record app { show_help = false }, []))
      ⊎ (r ≡ (app, []))
unfolding map_key
help_is_modal key app shown = elim (Bool-cases (key.control && is_char b'c' key.code)) [
  | inl e ↦ inl (e, rw e (unfold apply in refl))
  | inr e ↦ elim (help_key-cases key.code) [
    | inl closes ↦ inr (inl (rw (shown, e, closes) (unfold apply in refl)))
    | inr nothing ↦ inr (inr (rw (shown, e, nothing) (unfold apply in refl)))
  ]
]
