-- ===== src/Menu/Options/Asking.antt =====
-- `parsingMenuOption` against a prompt for a number that has no pages.
use mathlib.Core.Path.{subst}
use webboot.Prelude.{
  ℕ, ◌+◌, ◌-◌, ◌≤◌, ◌<◌, min, Bool, true, false, Str, lit, is_empty, atoi, ℤ, pos, negsuc, List, [],
  ◌∷◌, ◌++◌, Option, none, some, ◌≡◌, refl, ap, ◌∙◌, arith, length, drop_last, slice?-some, ltb,
  leb, ◌==◌, if◌then◌else◌, Bool-cases, inl, inr, take, drop,
}
use webboot.Exec.{back_request, exit_request, ok, err, panicked}
use webboot.Menu.Event.{Event, Next, again, stop, listen, Agree, listen_sim}
use webboot.Menu.Key.{
  Key, ctrl_d, escape, enter, backspace, space, up, down, left, right, page_up, page_down, home,
  end, key_of,
}
use webboot.Menu.Options.{
  OptionArgs, OptionPage, repage, special_warning, answer, type_key, option_case, option_step,
  chosen, start, parsing_menu_option, blank_page,
}

abbrev pub settle : ℕ → Option Str → Next Str ℕ
settle c none = stop (ok c)
settle c (some w) = again []

-- An answer is taken if it is the number of an entry that has no warning of its own.
unfoldable pub pick : OptionArgs → Option ℤ → Next Str ℕ
pick a (some (pos c)) =
    if ltb c (length a.labels) then settle c (special_warning a.custom_warning c) else again []
pick a (some (negsuc c)) = again []
pick a none = again []

insert : Str → Str → Next Str ℕ
insert text [] = stop panicked
insert text (c ∷ k) = if c == b'<' then again text else again (text ++ c ∷ k)

-- The prompt with nothing but the text typed so far.
unfoldable pub ask_case : OptionArgs → Str → Str → Key → Next Str ℕ
unfolding pick insert
ask_case a text k ctrl_d = stop (err exit_request)
ask_case a text k escape = stop (err back_request)
ask_case a text k enter = pick a (atoi text)
ask_case a text k backspace = again (drop_last text)
ask_case a text k space = again (text ++ lit " ")
ask_case a text k Key.other = insert text k
ask_case a text k _ = again text

abbrev pub ask : OptionArgs → Str → Str → Next Str ℕ
unfolding ask_case
ask a text k = ask_case a text k (key_of k)

-- The page shows one to ten labels, those from `first` on.
pub record IsPaged (a : OptionArgs) (first last : ℕ) (rows : List Str) : Type 0 where
  pub inside : last ≤ length a.labels
  pub shown : first < last
  pub ten : last ≤ first + 10
  pub rows_are : rows ≡ take (last - first) (drop first a.labels)

abbrev pub Asks : OptionArgs → OptionPage → Str → Type 0
Asks a s text = (s.input ≡ text) × IsPaged a s.first s.last s.rows

Agree-if :
    {S T : Type 0} (R : S → T → Type 0) (b : Bool) (m n : Next S ℕ) (r : Next T ℕ)
    → (b ≡ true → Agree R m r)
    → (b ≡ false → Agree R n r)
    → Agree R (if b then m else n) r
Agree-if R true m n r km kn = km refl
Agree-if R false m n r km kn = kn refl

drop_last_empty : (t : Str) → is_empty t ≡ true → t ≡ drop_last t
drop_last_empty [] h = refl
drop_last_empty (c ∷ t) h = cc

module _ (a : OptionArgs) (some_label : 0 < length a.labels) where
  repage-Asks :
      (s : OptionPage) (text : Str) (first last : ℕ)
      → s.input ≡ text
      → last ≤ length a.labels
      → first < last
      → last ≤ first + 10
      → Agree (Asks a) (repage a s first last) (again text)
  unfolding repage
  repage-Asks s text first last e h k t =
      rw (slice?-some first last a.labels (omega arith) h)
        (e, record { inside = h; shown = k; ten = t; rows_are = refl })

  settle-Asks :
      (s : OptionPage) (text : Str) (c : ℕ) (w : Option Str)
      → IsPaged a s.first s.last s.rows
      → Agree (Asks a) (chosen s c w) (settle c w)
  settle-Asks s text c none h = refl
  settle-Asks s text c (some w) h = (refl, h)

  answer-Asks :
      (s : OptionPage) (o : Option ℤ)
      → IsPaged a s.first s.last s.rows
      → Agree (Asks a) (answer a s o) (pick a o)
  unfolding answer pick
  answer-Asks s none h = (refl, h)
  answer-Asks s (some (negsuc c)) h = (refl, h)
  answer-Asks s (some (pos c)) h = elim (Bool-cases (ltb c (length a.labels))) [
    | inl y ↦ rw y (settle-Asks s [] c (special_warning a.custom_warning c) h)
    | inr n ↦ rw n (refl, h)
  ]

  type-Asks :
      (s : OptionPage) (text k : Str)
      → Asks a s text
      → Agree (Asks a) (type_key s k) (insert text k)
  unfolding type_key insert
  type-Asks s text [] h = refl
  type-Asks s text (c ∷ k) h = elim (Bool-cases (c == b'<')) [
    | inl y ↦ rw y h
    | inr n ↦ rw n (ap (λ t. t ++ c ∷ k) h.0, h.1)
  ]

  -- A page that begins before the end of the labels.
  page-Asks :
      (s : OptionPage) (text : Str) (first : ℕ)
      → Asks a s text
      → first < length a.labels
      → Agree (Asks a) (repage a s first (min (first + 10) (length a.labels))) (again text)
  page-Asks s text first h lt =
      repage-Asks s text first _ h.0 (omega arith) (omega arith) (omega arith)

  case-Asks :
      (s : OptionPage) (text k : Str) (key : Key)
      → Asks a s text
      → Agree (Asks a) (option_case a s k key) (ask_case a text k key)
  unfolding option_case ask_case
  case-Asks s text k ctrl_d h = refl
  case-Asks s text k escape h = refl
  case-Asks s text k enter h =
      subst (λ t. Agree (Asks a) (answer a s (atoi s.input)) (pick a (atoi t))) h.0
        (answer-Asks s (atoi s.input) h.1)
  case-Asks s text k backspace h =
      Agree-if (Asks a) (is_empty s.input) _ _ (again (drop_last text))
        (λ e. (drop_last_empty s.input e ∙ ap drop_last h.0, h.1)) (λ _. (ap drop_last h.0, h.1))
  case-Asks s text k space h = (ap (λ t. t ++ lit " ") h.0, h.1)
  case-Asks s text k left h = page-Asks s text _ h (omega (arith, h.1.inside, h.1.shown))
  case-Asks s text k right h =
      Agree-if (Asks a) (leb (length a.labels) (s.first + 10)) _ _ (again text) (λ _. h)
        (λ e. page-Asks s text _ h (ground arith))
  case-Asks s text k page_up h = h
  case-Asks s text k page_down h = h
  case-Asks s text k up h = page-Asks s text _ h (omega (arith, h.1.inside, h.1.shown))
  case-Asks s text k down h =
      repage-Asks s text _ _ h.0 (omega arith) (omega (arith, h.1.inside, h.1.shown))
        (omega (arith, h.1.inside))
  case-Asks s text k home h = page-Asks s text 0 h some_label
  case-Asks s text k end h = repage-Asks s text _ _ h.0 (omega arith) (omega arith) (omega arith)
  case-Asks s text k Key.other h = type-Asks s text k h

  first-Asks :
      (warning : Str)
      → Agree (Asks a) (repage a (blank_page warning) 0 (min 10 (length a.labels))) (again [])
  first-Asks warning =
      repage-Asks (blank_page warning) [] 0 _ refl (omega arith) (omega arith) (omega arith)

  begin-ask :
      (es : List Event) (n : Next OptionPage ℕ)
      → Agree (Asks a) n (again [])
      → start a es n ≡ listen (ask a) [] es
  unfolding option_case ask_case
  begin-ask es (stop r) h = absurd h
  begin-ask es (again s) h =
      listen_sim (option_step a) (ask a) (Asks a) (λ s t k r. case-Asks s t k (key_of k) r) s [] es
        h

-- Of a menu with entries, the pages have no influence on the choice: whatever the events, the call
-- returns what a prompt without pages returns, and no page makes it panic.
pub parsing_menu_option-eq-ask :
    (a : OptionArgs) (warning : Str) (es : List Event)
    → 0 < length a.labels
    → parsing_menu_option a warning es ≡ listen (ask a) [] es
unfolding parsing_menu_option ask_case
parsing_menu_option-eq-ask a warning es h =
    let filled : (length a.labels == 0) ≡ false = ground arith in
    rw filled (begin-ask a h es _ (first-Asks a h warning))
