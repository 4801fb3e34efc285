-- ===== src/Menu/TextInput.antt =====
-- pkg/menu: `processInput` and `PromptTextInput`, the text box with a window on a longer text.
-- The position, the size and the colours of the widgets are not modelled, only their text.
pub mod Editor
pub mod Typing
pub mod Accepted
use webboot.Prelude.{
  ℕ, ◌+◌, ◌-◌, Bool, true, false, Str, lit, is_empty, List, [], ◌∷◌, ◌++◌, Option, none, some,
  length, drop_last, slice_from?, ◌==◌, if◌then◌else◌,
}
use webboot.Exec.{back_request, exit_request, Res, ok, err, panicked, map_res, Exec, ◌>>=◌, ◌>>◌}
use webboot.Menu.Event.{Event, Next, again, stop, listen}
use webboot.Menu.Key.{Key, ctrl_d, escape, enter, backspace, space, key_of}
use webboot.Menu.Ui.{Ui, announce}

-- `validCheck`: the text to return, a warning, and whether the text is accepted.
abbrev pub ValidCheck : Type 0
ValidCheck = Str → Str × Str × Bool

unfoldable pub always_valid : ValidCheck
always_valid input = (input, lit "", true)

-- The local variables `fullText`, `input.Text` and `warning.Text`.
pub record InputBox : Type 0 where
  pub full_text : Str
  pub shown : Str
  pub warning : Str

-- `start := max(0, len(fullText)-wid+3); input.Text = fullText[start:]`.
window : ℕ → Str → Option Str
window wid full = slice_from? (length full + 3 - wid) full

refresh : InputBox → Str → Option Str → Next InputBox (Str × Str)
refresh s full none = stop panicked
refresh s full (some w) = again (record s { full_text = full; shown = w })

retype : ℕ → InputBox → Str → Next InputBox (Str × Str)
unfolding refresh window
retype wid s full = refresh s full (window wid full)

-- `fullText[:len(fullText)-1]` panics on the empty text.
erase : ℕ → InputBox → Str → Next InputBox (Str × Str)
erase wid s [] = stop panicked
erase wid s (c ∷ full) = retype wid s (drop_last (c ∷ full))

submit : InputBox → Str × Str × Bool → Next InputBox (Str × Str)
submit s (input, warning, accepted) =
    if accepted
    then stop (ok (input, s.warning))
    else again (record { full_text = []; shown = []; warning = warning })

-- The default case: `k[0:1]` panics on the empty key.
type_key : ℕ → InputBox → Str → Next InputBox (Str × Str)
type_key wid s [] = stop panicked
type_key wid s (c ∷ k) = if c == b'<' then again s else retype wid s (s.full_text ++ c ∷ k)

-- The switch of `processInput`.
input_case : ℕ → ValidCheck → InputBox → Str → Key → Next InputBox (Str × Str)
unfolding erase submit type_key
input_case wid is_valid s k ctrl_d = stop (err exit_request)
input_case wid is_valid s k escape = stop (err back_request)
input_case wid is_valid s k enter = submit s (is_valid s.full_text)
input_case wid is_valid s k backspace =
    if is_empty s.shown then again s else erase wid s s.full_text
input_case wid is_valid s k space = retype wid s (s.full_text ++ lit " ")
input_case wid is_valid s k _ = type_key wid s k

abbrev pub input_step : ℕ → ValidCheck → InputBox → Str → Next InputBox (Str × Str)
unfolding input_case retype
input_step wid is_valid s k = input_case wid is_valid s k (key_of k)

abbrev pub opened : InputBox
opened = record { full_text = []; shown = []; warning = lit "<Esc> to go back, <Ctrl+d> to exit" }

-- The text, the warning and the error that `processInput` returns, for a box `wid` wide.
unfoldable pub process_input : ℕ → ValidCheck → List Event → Res (Str × Str) × List Event
unfolding input_case retype
process_input wid is_valid events = listen (input_step wid is_valid) opened events

unfoldable pub read_input : ValidCheck → Exec Ui Str
read_input is_valid u =
    let (r, es) = process_input 80 is_valid u.events in
    (map_res (λ p. p.0) r, record u { events = es })

unfoldable pub prompt_text_input : Str → ValidCheck → Exec Ui Str
unfolding announce read_input process_input
prompt_text_input introwords is_valid = do announce introwords; read_input is_valid
