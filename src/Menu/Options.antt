-- ===== src/Menu/Options.antt =====
-- pkg/menu: `parsingMenuOption`, the numbered list of entries with pages of ten.
pub mod Asking
pub mod Choosing
use webboot.Prelude.{
  ℕ, suc, ◌+◌, ◌-◌, min, Bool, true, false, Str, lit, is_empty, itoa, atoi, ℤ, pos, negsuc, List,
  [], ◌∷◌, ◌++◌, Option, none, some, length, drop_last, get_elem?, slice?, ltb, leb, ◌==◌,
  if◌then◌else◌,
}
use webboot.Exec.{back_request, exit_request, other, Res, ok, err, panicked}
use webboot.Menu.Event.{Event, Next, again, stop, listen}
use webboot.Menu.Key
use webboot.Menu.Key.{
  Key, ctrl_d, escape, enter, backspace, space, up, down, left, right, page_up, page_down, home,
  end, key_of,
}

-- A call of the log box, which is a widget of termui.
pub data LogScroll : Type 0 where
  half_page_up half_page_down : LogScroll

-- `first`, `last`, the rows and the title of the list, the texts of the input and the warning, and
-- the calls made of the log box.
pub record OptionPage : Type 0 where
  pub first : ℕ
  pub last : ℕ
  pub rows : List Str
  pub title : Str
  pub input : Str
  pub warning : Str
  pub log_scrolls : List LogScroll

-- What the call is given: the labels, `menu.Title`, which has no format verb, and the warnings.
pub record OptionArgs : Type 0 where
  pub labels : List Str
  pub title : Str
  pub custom_warning : List Str

pager_title : OptionArgs → ℕ → Str
pager_title a first = a.title ++ (lit "---" ++ (itoa first ++ (lit "/" ++ itoa (length a.labels))))

abbrev paged : OptionArgs → OptionPage → ℕ → ℕ → Option (List Str) → Next OptionPage ℕ
paged a s first last none = stop panicked
paged a s first last (some rows) =
    again (record s { first = first; last = last; rows = rows; title = pager_title a first })

-- `listData := labels[first:last]; menu.Rows = listData; menu.Title = …`.
repage : OptionArgs → OptionPage → ℕ → ℕ → Next OptionPage ℕ
unfolding pager_title
repage a s first last = paged a s first last (slice? first last a.labels)

-- `customWarning[c]`, if there is one for this entry and it is not empty.
unfoldable pub special_warning : List Str → ℕ → Option Str
special_warning warnings c = elim (get_elem? warnings c) [
  | none ↦ none
  | some w ↦ if is_empty w then none else some w
]

abbrev refused : OptionPage → Str → Next OptionPage ℕ
refused s warning = again (record s { input = []; warning = warning })

abbrev chosen : OptionPage → ℕ → Option Str → Next OptionPage ℕ
chosen s c none = stop (ok c)
chosen s c (some w) = refused s w

-- The answer to `<Enter>`, with what `strconv.Atoi` returned.
answer : OptionArgs → OptionPage → Option ℤ → Next OptionPage ℕ
answer a s (some (pos c)) =
    if ltb c (length a.labels)
    then chosen s c (special_warning a.custom_warning c)
    else refused s (lit "Please enter a valid entry number.")
answer a s (some (negsuc c)) = refused s (lit "Please enter a valid entry number.")
answer a s none = refused s (lit "Please enter a valid entry number.")

abbrev typing : OptionPage → Str → OptionPage
typing s text = record s { input = text }

-- The default case: `k[0:1]` panics on the empty key.
type_key : OptionPage → Str → Next OptionPage ℕ
type_key s [] = stop panicked
type_key s (c ∷ k) = if c == b'<' then again s else again (typing s (s.input ++ c ∷ k))

abbrev log_scrolled : OptionPage → LogScroll → OptionPage
log_scrolled s d = record s { log_scrolls = s.log_scrolls ++ d ∷ [] }

-- The switch of `parsingMenuOption`.
option_case : OptionArgs → OptionPage → Str → Key → Next OptionPage ℕ
unfolding answer repage type_key
option_case a s k ctrl_d = stop (err exit_request)
option_case a s k escape = stop (err back_request)
option_case a s k enter = answer a s (atoi s.input)
option_case a s k backspace =
    if is_empty s.input then again s else again (typing s (drop_last s.input))
option_case a s k left =
    let first = s.first - 10 in repage a s first (min (first + 10) (length a.labels))
option_case a s k right =
    if leb (length a.labels) (s.first + 10)
    then again s
    else let first = s.first + 10 in repage a s first (min (first + 10) (length a.labels))
option_case a s k page_up = again (log_scrolled s half_page_up)
option_case a s k page_down = again (log_scrolled s half_page_down)
option_case a s k up =
    let first = s.first - 1 in repage a s first (min (first + 10) (length a.labels))
option_case a s k down =
    let last = min (s.last + 1) (length a.labels) in repage a s (last - 10) last
option_case a s k home = repage a s 0 (min (0 + 10) (length a.labels))
option_case a s k end = let last = length a.labels in repage a s (last - 10) last
option_case a s k space = again (typing s (s.input ++ lit " "))
option_case a s k Key.other = type_key s k

abbrev pub option_step : OptionArgs → OptionPage → Str → Next OptionPage ℕ
unfolding option_case
option_step a s k = option_case a s k (key_of k)

abbrev pub blank_page : Str → OptionPage
blank_page warning = record {
  first = 0;
  last = 0;
  rows = [];
  title = [];
  input = [];
  warning = warning;
  log_scrolls = [];
}

abbrev pub start : OptionArgs → List Event → Next OptionPage ℕ → Res ℕ × List Event
start a es (again s) = listen (option_step a) s es
start a es (stop r) = (r, es)

-- The number of the chosen entry, from an empty input box and the given warning.
unfoldable pub parsing_menu_option : OptionArgs → Str → List Event → Res ℕ × List Event
unfolding repage option_case
parsing_menu_option a warning es =
    if length a.labels == 0
    then (err (other (lit "No Entry in the menu")), es)
    else start a es (repage a (blank_page warning) 0 (min 10 (length a.labels)))
