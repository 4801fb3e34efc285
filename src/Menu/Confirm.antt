-- ===== src/Menu/Confirm.antt =====
-- pkg/menu: `PromptConfirmation`, a question that is answered with 0 or 1.
pub mod Answers
use webboot.Prelude.{
  ℕ, ◌+◌, true, false, Bool, Str, lit, text_eq, List, [], ◌∷◌, ◌++◌, ◌||◌, ◌==◌, if◌then◌else◌,
}
use webboot.Exec.{back_request, exit_request, Res, ok, err, Exec, ◌>>=◌, ◌>>◌}
use webboot.Menu.Event.{Event, Next, again, stop, listen}
use webboot.Menu.Key.{Key, ctrl_d, escape, enter, backspace, key_of}
use webboot.Menu.Message.{result_width}
use webboot.Menu.Ui.{Ui, announce}
use webboot.Menu.Wrap.{confirm_text}

unfoldable pub count_newlines : Str → ℕ
count_newlines [] = 0
count_newlines (c ∷ s) = (if c == b'\n' then 1 else 0) + count_newlines s

-- The text of the message box, and `position`, its height.
unfoldable pub question : Str → Str × ℕ
unfolding confirm_text
question message =
    let text = confirm_text result_width message ++ lit "\n[0] Yes\n[1] No\n" in
    (text, 1 + (count_newlines text + 2))

-- The answer to `<Enter>`, by `entry.Text`.
confirm_enter : Str → Next Str Bool
confirm_enter entry =
    if text_eq entry (lit "0")
    then stop (ok true)
    else if text_eq entry (lit "1")
    then stop (ok false)
    else again entry

-- The switch of `PromptConfirmation`; the state is `entry.Text`.
confirm_case : Str → Str → Key → Next Str Bool
unfolding confirm_enter
confirm_case entry k escape = stop (err back_request)
confirm_case entry k ctrl_d = stop (err exit_request)
confirm_case entry k enter = confirm_enter entry
confirm_case entry k backspace = again []
confirm_case entry k _ = if text_eq k (lit "0") || text_eq k (lit "1") then again k else again entry

abbrev pub confirm_step : Str → Str → Next Str Bool
unfolding confirm_case
confirm_step entry k = confirm_case entry k (key_of k)

unfoldable pub await_answer : List Event → Res Bool × List Event
unfolding confirm_case
await_answer es = listen confirm_step [] es

unfoldable pub ask_user : Exec Ui Bool
ask_user u = let (r, es) = await_answer u.events in (r, record u { events = es })

unfoldable pub prompt_confirmation : Str → Exec Ui Bool
unfolding announce ask_user
prompt_confirmation message = do announce message; ask_user
