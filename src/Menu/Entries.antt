-- ===== src/Menu/Entries.antt =====
-- pkg/menu: `PromptMenuEntry`, over any type of entries with labels.
pub mod Picking
pub mod Members
use webboot.Prelude.{
  ℕ, zero, suc, ◌+◌, Str, lit, itoa, List, [], ◌∷◌, ◌++◌, Option, none, some, get_elem?,
}
use webboot.Exec.{Res, ok, err, blocked, panicked, exited, Exec, ◌>>=◌, ◌>>◌}
use webboot.Menu.Event.{Event}
use webboot.Menu.Options.{OptionArgs, parsing_menu_option}
use webboot.Menu.Ui.{Ui, announce, read_log}

module _ {E : Type 0} (label : E → Str) where
  -- `fmt.Sprintf("[%d] %s", i, e.Label())`, for each entry in turn.
  unfoldable pub numbered : ℕ → List E → List Str
  numbered i [] = []
  numbered i (e ∷ es) = (lit "[" ++ (itoa i ++ (lit "] " ++ label e))) ∷ numbered (i + 1) es

  -- `entries[chooseIndex]`.
  abbrev pub entry_at : List E → Res ℕ → Res E
  entry_at entries (ok c) = elim (get_elem? entries c) [ none ↦ panicked | some e ↦ ok e ]
  entry_at entries (err e) = err e
  entry_at entries blocked = blocked
  entry_at entries panicked = panicked
  entry_at entries (exited n) = exited n

  abbrev pub options : Str → List E → List Str → OptionArgs
  options title entries warnings = record {
    labels = numbered 0 entries;
    title = title;
    custom_warning = warnings;
  }

  unfoldable pub choose : Str → List E → List Str → Exec Ui E
  unfolding numbered
  choose title entries warnings u =
      let (r, es) =
        parsing_menu_option (options title entries warnings)
          (lit "<Esc> to go back, <Ctrl+d> to exit") u.events in
      (entry_at entries r, record u { events = es })

  unfoldable pub prompt_menu_entry : Str → List E → List Str → Exec Ui E
  unfolding announce read_log choose
  prompt_menu_entry title entries warnings = do
    announce title
    read_log
    choose title entries warnings
