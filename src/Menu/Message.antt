-- ===== src/Menu/Message.antt =====
-- pkg/menu: `DisplayResult`, a window of twenty lines that scrolls over a message.
pub mod Scrolling
use webboot.Prelude.{
  ℕ, ◌+◌, ◌-◌, min, true, Str, lit, itoa, join, List, [], ◌∷◌, ◌++◌, Option, none, some, length,
  slice?, ltb, ◌==◌, if◌then◌else◌,
}
use webboot.Exec.{Error, back_request, exit_request, Res, ok, panicked, Exec, ◌>>=◌, ◌>>◌}
use webboot.Menu.Event.{Event, Next, again, stop, listen}
use webboot.Menu.Key.{Key, ctrl_d, escape, up, down, left, right, page_up, page_down, key_of}
use webboot.Menu.Ui.{Ui, announce}
use webboot.Menu.Wrap.{wrap_lines}

abbrev pub result_height : ℕ
result_height = 20

abbrev pub result_width : ℕ
result_width = 70

-- `first` and `last`, and the text and the title of the paragraph.
pub record Pager : Type 0 where
  pub first : ℕ
  pub last : ℕ
  pub text : Str
  pub title : Str

-- What stands under a message that is longer than the window.
pub footer : List Str → ℕ → Str
footer text last =
    if ltb result_height (length text)
    then if ltb last (length text)
      then lit "\n\n(More)"
      else if last == length text
      then lit "\n\n(End of message)"
      else []
    else []

abbrev pub page_of : List Str → ℕ → ℕ → List Str → Pager
page_of text first last lines = record {
  first = first;
  last = last;
  text = join (lit "\n") lines ++ footer text last;
  title = lit "Message---" ++ (itoa first ++ (lit "/" ++ itoa (length text)));
}

abbrev painted : List Str → ℕ → ℕ → Option (List Str) → Option Pager
painted text first last none = none
painted text first last (some lines) = some (page_of text first last lines)

-- The top of the loop; `text[first:last]` may panic.
paint : List Str → ℕ → ℕ → Option Pager
unfolding footer
paint text first last = painted text first last (slice? first last text)

abbrev turned : Option Pager → Next Pager (Str × Option Error)
turned none = stop panicked
turned (some p) = again p

turn : List Str → ℕ → ℕ → Next Pager (Str × Option Error)
unfolding paint
turn text first last = turned (paint text first last)

scroll_case : List Str → Pager → Key → Next Pager (Str × Option Error)
unfolding turn
scroll_case text p up =
    let first = p.first - 1 in turn text first (min (first + result_height) (length text))
scroll_case text p down =
    let last = min (p.last + 1) (length text) in turn text (last - result_height) last
scroll_case text p left =
    let first = p.first - result_height in
    turn text first (min (first + result_height) (length text))
scroll_case text p page_up =
    let first = p.first - result_height in
    turn text first (min (first + result_height) (length text))
scroll_case text p right =
    let last = min (p.last + result_height) (length text) in turn text (last - result_height) last
scroll_case text p page_down =
    let last = min (p.last + result_height) (length text) in turn text (last - result_height) last
scroll_case text p ctrl_d = stop (ok (p.text, some exit_request))
scroll_case text p escape = stop (ok (p.text, some back_request))
scroll_case text p _ = stop (ok (p.text, none))

abbrev pub scroll_step : List Str → Pager → Str → Next Pager (Str × Option Error)
unfolding scroll_case
scroll_step text p k = scroll_case text p (key_of k)

abbrev pub begin : List Str → List Event → Option Pager → Res (Str × Option Error) × List Event
begin text es none = (panicked, es)
begin text es (some p) = listen (scroll_step text) p es

-- The loop of `DisplayResult`, over the lines of the split message.
unfoldable pub scroll : List Str → List Event → Res (Str × Option Error) × List Event
unfolding paint scroll_case
scroll text es = begin text es (paint text 0 (min result_height (length text)))

unfoldable pub show : List Str → Exec Ui (Str × Option Error)
show message u =
    let (r, es) = scroll (wrap_lines result_width message) u.events in (r, record u { events = es })

-- The text shown last, and the error. `message[0]` panics on the empty message.
unfoldable pub display_result : List Str → Exec Ui (Str × Option Error)
unfolding announce show scroll
display_result [] u = (panicked, u)
display_result (m ∷ ms) u = (announce m >>= λ _. show (m ∷ ms)) u
