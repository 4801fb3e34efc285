-- ===== src/Tests/Menu.antt =====
-- pkg/menu at fixed inputs.
use webboot.Prelude.{
  Str, lit, text_eq, itoa, atoi, slice?, slice_from?, pos, negsuc, List, [], ◌∷◌, ◌++◌, ◌≡◌, ◌≢◌,
  refl, arith, none, some, false,
}
use webboot.Exec.{ok, panicked}
use webboot.Menu.Event.{Event, resize_event, listen, press, presses, all_named-AllNames}
use webboot.Menu.Key.{key_of}
use webboot.Menu.TextInput.{always_valid, opened, process_input}
use webboot.Menu.TextInput.Editor.{edit, blank, process_input-eq-edit}
use webboot.Menu.TextInput.Typing.{process_input_safe}
use webboot.Menu.Wrap.{AllWithin, pasted, wrap_line, wrap_lines, wrap_lines_lem}
use webboot.Menu.Message.{scroll}
use webboot.Menu.Message.Scrolling.{Returns, scroll-Returns}
use webboot.Menu.Options.{OptionArgs, special_warning, parsing_menu_option}
use webboot.Menu.Options.Asking.{ask, parsing_menu_option-eq-ask}
use webboot.Menu.Options.Choosing.{
  IsChoice, parsing_menu_option-IsChoice, singles, choose_by_number,
}
use webboot.Menu.Ui.{Ui}
use webboot.Menu.Entries.{prompt_menu_entry}
use webboot.Menu.Entries.Picking.{Picks, prompt_menu_entry-Picks, prompt_menu_entry_by_number}
use webboot.Menu.Confirm.{await_answer}
use webboot.Menu.Confirm.Answers.{answered, marked, await_answer-marked}

abbrev resized : Event
resized = record { type = resize_event; id = lit "<Resize>" }

abbrev typed_keys : List Event
typed_keys =
    resized
    ∷ presses (lit "h" ∷ lit "x" ∷ lit "<Backspace>" ∷ lit "<F1>" ∷ lit "i" ∷ lit "<Enter>" ∷ [])

atoi_runs :
    (atoi (lit "+12") ≡ some (pos 12))
    × (atoi (lit "-3") ≡ some (negsuc 2))
    × (atoi (lit "1a") ≡ none)
unfolding atoi lit
atoi_runs = (refl, refl, refl)

process_input_runs : process_input 80 always_valid typed_keys ≡ (ok (lit "hi", opened.warning), [])
unfolding process_input always_valid listen key_of text_eq lit slice_from?
process_input_runs = refl

process_input-eq-edit_example :
    process_input 80 always_valid typed_keys ≡ listen (edit always_valid) blank typed_keys
process_input-eq-edit_example = process_input-eq-edit 80 always_valid typed_keys (omega arith)

process_input_safe_example : (process_input 80 always_valid typed_keys).0 ≢ panicked
unfolding lit
process_input_safe_example =
    process_input_safe 80 always_valid typed_keys (omega arith) (all_named-AllNames typed_keys refl)

wrap_runs : wrap_line 3 (lit "abcdefg") ≡ lit "abc" ∷ lit "def" ∷ lit "g" ∷ []
unfolding wrap_line lit
wrap_runs = refl

abbrev two_lines : List Str
two_lines = lit "abcdefg" ∷ lit "" ∷ []

wrap_lines_lem_example :
    AllWithin 3 (wrap_lines 3 two_lines) × (pasted (wrap_lines 3 two_lines) ≡ pasted two_lines)
wrap_lines_lem_example = wrap_lines_lem 3 two_lines (omega arith)

scroll-Returns_example : Returns two_lines (scroll two_lines typed_keys).0
scroll-Returns_example = scroll-Returns two_lines typed_keys

abbrev args : OptionArgs
args = record { labels = lit "[0] a" ∷ lit "[1] b" ∷ []; title = lit "T"; custom_warning = [] }

abbrev menu_keys : List Event
menu_keys = presses (lit "<Down>" ∷ lit "7" ∷ lit "<Enter>" ∷ lit "1" ∷ lit "<Enter>" ∷ [])

parsing_menu_option_runs : parsing_menu_option args (lit "") menu_keys ≡ (ok 1, [])
unfolding parsing_menu_option listen key_of text_eq lit itoa atoi slice? special_warning
parsing_menu_option_runs = refl

parsing_menu_option-eq-ask_example :
    parsing_menu_option args (lit "") menu_keys ≡ listen (ask args) [] menu_keys
parsing_menu_option-eq-ask_example =
    parsing_menu_option-eq-ask args (lit "") menu_keys (omega arith)

parsing_menu_option-IsChoice_example : IsChoice args (parsing_menu_option args (lit "") menu_keys).0
unfolding lit
parsing_menu_option-IsChoice_example =
    parsing_menu_option-IsChoice args (lit "") menu_keys (omega arith)
      (all_named-AllNames menu_keys refl)

choose_by_number_example :
    parsing_menu_option args (lit "") (presses (singles (itoa 1)) ++ press (lit "<Enter>") ∷ [])
    ≡ (ok 1, [])
unfolding special_warning
choose_by_number_example = choose_by_number args (lit "") 1 [] (omega arith) (omega arith) refl

abbrev screen : Ui
screen = record {
  events = presses (singles (itoa 1)) ++ press (lit "<Enter>") ∷ [];
  menus = [];
  log_file = some [];
}

abbrev distros : List Str
distros = lit "Arch" ∷ lit "Debian" ∷ []

prompt_menu_entry-Picks_example :
    Picks distros [] (prompt_menu_entry (λ (d : Str). d) (lit "Linux Distros") distros [] screen).0
    × ((prompt_menu_entry (λ (d : Str). d) (lit "Linux Distros") distros [] screen).1.menus
        ≡ [] ++ lit "Linux Distros" ∷ [])
unfolding itoa lit
prompt_menu_entry-Picks_example =
    prompt_menu_entry-Picks (λ (d : Str). d) (lit "Linux Distros") distros [] [] screen refl
      (omega arith) (all_named-AllNames screen.events refl)

prompt_menu_entry_by_number_example :
    prompt_menu_entry (λ (d : Str). d) (lit "Linux Distros") distros [] screen
    ≡ (ok (lit "Debian"), record screen { events = []; menus = lit "Linux Distros" ∷ [] })
unfolding special_warning
prompt_menu_entry_by_number_example =
    prompt_menu_entry_by_number (λ (d : Str). d) (lit "Linux Distros") distros [] [] screen 1
      (lit "Debian") [] refl refl (omega arith) refl refl

await_answer_runs :
    await_answer (presses (lit "0" ∷ lit "x" ∷ lit "1" ∷ lit "<Enter>" ∷ [])) ≡ (ok false, [])
unfolding await_answer listen key_of text_eq lit
await_answer_runs = refl

await_answer-marked_example :
    await_answer (presses (lit "0" ∷ lit "x" ∷ []) ++ press (lit "<Enter>") ∷ [])
    ≡ answered (marked none (lit "0" ∷ lit "x" ∷ [])) []
unfolding key_of text_eq lit
await_answer-marked_example = await_answer-marked (lit "0" ∷ lit "x" ∷ []) [] (tt, (tt, tt))
