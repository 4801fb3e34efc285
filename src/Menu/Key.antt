-- ===== src/Menu/Key.antt =====
-- pkg/menu: the cases of the switches on a key's name.
use webboot.Prelude.{false, Str, lit, text_eq, List, ◌++◌, [], ◌∷◌, ◌≡◌, ◌==◌, if◌then◌else◌}

pub data Key : Type 0 where
  ctrl_d escape enter backspace space : Key
  up down left right page_up page_down home end : Key
  other : Key

-- The name that a switch compares with, for all its cases. `<MouseWheelUp>` goes with `<Up>`, and
-- `<MouseWheelDown>` with `<Down>`, as in every switch of the source.
unfoldable pub key_of : Str → Key
key_of k =
    if text_eq k (lit "<C-d>")
    then ctrl_d
    else if text_eq k (lit "<Escape>")
    then escape
    else if text_eq k (lit "<Enter>")
    then enter
    else if text_eq k (lit "<Backspace>")
    then backspace
    else if text_eq k (lit "<Space>")
    then space
    else if text_eq k (lit "<Left>")
    then left
    else if text_eq k (lit "<Right>")
    then right
    else if text_eq k (lit "<PageUp>")
    then page_up
    else if text_eq k (lit "<PageDown>")
    then page_down
    else if text_eq k (lit "<Up>")
    then up
    else if text_eq k (lit "<MouseWheelUp>")
    then up
    else if text_eq k (lit "<Down>")
    then down
    else if text_eq k (lit "<MouseWheelDown>")
    then down
    else if text_eq k (lit "<Home>")
    then home
    else if text_eq k (lit "<End>")
    then end
    else other

-- A key that types its own name: a letter, a digit or another character but `<`.
abbrev pub IsPlain : Str → Type 0
IsPlain [] = ⊥
IsPlain (c ∷ k) = (c == b'<') ≡ false

pub key_of_plain : (k : Str) → IsPlain k → key_of k ≡ other
unfolding key_of text_eq lit
key_of_plain [] h = absurd h
key_of_plain (c ∷ k) h = rw (h, text_eq)

abbrev pub AllPlain : List Str → Type 0
AllPlain [] = Unit
AllPlain (k ∷ ks) = IsPlain k × AllPlain ks

-- The text that a sequence of keys types.
abbrev pub flat : List Str → Str
flat [] = []
flat (k ∷ ks) = k ++ flat ks
