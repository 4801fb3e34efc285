-- ===== src/Menu/Options/Choosing.antt =====
-- What a user who types a number gets from `parsingMenuOption`.
use webboot.Prelude.{
  ℕ, ◌<◌, ◌^◌, Str, lit, text_eq, itoa, atoi, ℤ, pos, negsuc, List, [], ◌∷◌, ◌++◌, Option, none,
  some, ◌≡◌, ◌≢◌, refl, ◌∙◌, arith, length, ltb, lt→ltb, ltb→lt, ◌==◌, AllDigits, itoa-AllDigits,
  atoi-itoa, append-nil, append_assoc,
}
use webboot.Exec.{IsRequest, Res, ok, err, blocked, panicked, exited}
use webboot.Menu.Event.{
  Event, again, stop, listen, Keeps, Keeps-if, AllNames, listen_inv, press, presses, listen_again,
  listen_stop,
}
use webboot.Menu.Key.{Key, ctrl_d, escape, enter, key_of, IsPlain, AllPlain, flat, key_of_plain}
use webboot.Menu.Options.{OptionArgs, special_warning, parsing_menu_option}
use webboot.Menu.Options.Asking.{settle, pick, ask_case, ask, parsing_menu_option-eq-ask}

-- A number is the place of a label that has no warning, and an error is one of the two requests.
abbrev pub IsChoice : OptionArgs → Res ℕ → Type 0
IsChoice a (ok c) = (c < length a.labels) × (special_warning a.custom_warning c ≡ none)
IsChoice a (err e) = IsRequest e
IsChoice a blocked = Unit
IsChoice a panicked = ⊥
IsChoice a (exited n) = ⊥

settle-IsChoice :
    (a : OptionArgs) (c : ℕ) (w : Option Str)
    → c < length a.labels
    → special_warning a.custom_warning c ≡ w
    → Keeps (λ _. Unit {0}) (IsChoice a) (settle c w)
settle-IsChoice a c none h e = (h, e)
settle-IsChoice a c (some w) h e = tt

pick-IsChoice : (a : OptionArgs) (o : Option ℤ) → Keeps (λ _. Unit {0}) (IsChoice a) (pick a o)
unfolding pick
pick-IsChoice a none = tt
pick-IsChoice a (some (negsuc c)) = tt
pick-IsChoice a (some (pos c)) =
    Keeps-if _ (IsChoice a) (ltb c (length a.labels)) _ _
      (λ e. settle-IsChoice a c _ (ltb→lt c _ e) refl) (λ _. tt)

case-IsChoice :
    (a : OptionArgs) (text k : Str) (key : Key)
    → k ≢ []
    → Keeps (λ _. Unit {0}) (IsChoice a) (ask_case a text k key)
unfolding ask_case
case-IsChoice a text k ctrl_d ne = tt
case-IsChoice a text k escape ne = tt
case-IsChoice a text k enter ne = pick-IsChoice a (atoi text)
case-IsChoice a text [] Key.other ne = absurd (ne refl)
case-IsChoice a text (c ∷ k) Key.other ne =
    Keeps-if _ (IsChoice a) (c == b'<') _ _ (λ _. tt) (λ _. tt)
case-IsChoice a text k _ ne = tt

-- If no key has the empty name, a menu with entries never panics: it waits, it returns one of the
-- two requests, or it returns the number of an entry, one that has no warning of its own.
pub parsing_menu_option-IsChoice :
    (a : OptionArgs) (warning : Str) (es : List Event)
    → 0 < length a.labels
    → AllNames (λ k. k ≢ []) es
    → IsChoice a (parsing_menu_option a warning es).0
unfolding ask_case
parsing_menu_option-IsChoice a warning es some_label named =
    rw (parsing_menu_option-eq-ask a warning es some_label) (
      listen_inv (ask a) (λ k. k ≢ []) (λ _. Unit {0}) (IsChoice a)
        (λ t k ne _. case-IsChoice a t k (key_of k) ne) tt [] es named tt)

module _ (a : OptionArgs) where
  ask_plain : (text k : Str) → IsPlain k → ask a text k ≡ again (text ++ k)
  unfolding ask_case
  ask_plain text [] h = absurd h
  ask_plain text (c ∷ k) h = rw (key_of_plain (c ∷ k) h, ask_case) (rw h)

  typed :
      (ks : List Str) (text : Str) (es : List Event)
      → AllPlain ks
      → listen (ask a) text (presses ks ++ es) ≡ listen (ask a) (text ++ flat ks) es
  typed [] text es h = rw append-nil
  typed (k ∷ ks) text es h =
      listen_again _ text _ k (presses ks ++ es) (ask_plain text k h.0)
      ∙ typed ks (text ++ k) es h.1
      ∙ rw append_assoc

  ask_enter : (text : Str) → ask a text (lit "<Enter>") ≡ pick a (atoi text)
  unfolding ask_case key_of text_eq lit
  ask_enter text = refl

  pick-some :
      (c : ℕ)
      → c < length a.labels
      → special_warning a.custom_warning c ≡ none
      → pick a (some (pos c)) ≡ stop (ok c)
  unfolding pick
  pick-some c h w = rw (lt→ltb c (length a.labels) h) (rw w)

abbrev pub singles : Str → List Str
singles [] = []
singles (c ∷ s) = (c ∷ []) ∷ singles s

flat-singles : (s : Str) → flat (singles s) ≡ s
flat-singles [] = refl
flat-singles (c ∷ s) = rw (flat-singles s)

singles_plain : (s : Str) → AllDigits s → AllPlain (singles s)
singles_plain [] h = tt
singles_plain (c ∷ s) h = (ground arith, singles_plain s h.2)

-- A user who types the digits of the number of an entry without a warning, and presses Enter, gets
-- that entry, and the later events are left.
pub choose_by_number :
    (a : OptionArgs) (warning : Str) (c : ℕ) (es : List Event)
    → c < length a.labels
    → c < 2 ^ 63
    → special_warning a.custom_warning c ≡ none
    → parsing_menu_option a warning (presses (singles (itoa c)) ++ press (lit "<Enter>") ∷ es)
      ≡ (ok c, es)
unfolding ask_case
choose_by_number a warning c es h fits quiet =
    parsing_menu_option-eq-ask a warning _ (omega arith)
    ∙ typed a (singles (itoa c)) [] _ (singles_plain (itoa c) (itoa-AllDigits c))
    ∙ rw flat-singles (
        listen_stop (ask a) (itoa c) (ok c) (lit "<Enter>") es
          (ask_enter a (itoa c) ∙ rw (atoi-itoa c fits) (pick-some a c h quiet)))
