-- ===== src/Menu/TextInput/Typing.antt =====
-- What a user who types gets from `processInput`, and when it can panic.
use webboot.Prelude.{
  ℕ, ◌≤◌, Str, lit, List, [], ◌∷◌, ◌++◌, ◌≡◌, ◌≢◌, refl, ◌∙◌, append-nil, append_assoc, ◌==◌,
  text_eq,
}
use webboot.Exec.{Res, ok, panicked}
use webboot.Menu.Event.{
  Event, again, stop, listen, Keeps, Keeps-if, AllNames, listen_inv, press, presses, listen_again,
  listen_stop,
}
use webboot.Menu.Key.{
  Key, ctrl_d, escape, enter, backspace, space, key_of, IsPlain, AllPlain, flat, key_of_plain,
}
use webboot.Menu.TextInput.{ValidCheck, always_valid, opened, process_input}
use webboot.Menu.TextInput.Editor.{Line, edit_case, edit, blank, process_input-eq-edit}

edit_plain :
    (is_valid : ValidCheck) (l : Line) (k : Str)
    → IsPlain k
    → edit is_valid l k ≡ again (record l { text = l.text ++ k })
unfolding edit_case
edit_plain is_valid l [] h = absurd h
edit_plain is_valid l (c ∷ k) h = rw (key_of_plain (c ∷ k) h, edit_case) (rw h)

typed :
    (is_valid : ValidCheck) (ks : List Str) (l : Line) (es : List Event)
    → AllPlain ks
    → listen (edit is_valid) l (presses ks ++ es)
      ≡ listen (edit is_valid) (record l { text = l.text ++ flat ks }) es
typed is_valid [] l es h = rw append-nil
typed is_valid (k ∷ ks) l es h =
    listen_again _ l _ k (presses ks ++ es) (edit_plain is_valid l k h.0)
    ∙ typed is_valid ks (record l { text = l.text ++ k }) es h.1
    ∙ rw append_assoc

edit_enter : (l : Line) → edit always_valid l (lit "<Enter>") ≡ stop (ok (l.text, l.warning))
unfolding edit_case always_valid key_of text_eq lit
edit_enter l = refl

-- A user who types keys that are no special keys and presses Enter gets the typed text back from a
-- prompt that accepts any text, and the later events are left. The box is at least four wide.
process_input_typed :
    (wid : ℕ) (ks : List Str) (es : List Event)
    → 4 ≤ wid
    → AllPlain ks
    → process_input wid always_valid (presses ks ++ press (lit "<Enter>") ∷ es)
      ≡ (ok (flat ks, opened.warning), es)
process_input_typed wid ks es wide h =
    process_input-eq-edit wid always_valid _ wide
    ∙ typed always_valid ks blank _ h
    ∙ listen_stop _ _ _ _ es (edit_enter (record { text = flat ks; warning = opened.warning }))

abbrev Fine : Res (Str × Str) → Type 0
Fine r = r ≢ panicked

edit_safe :
    (is_valid : ValidCheck) (l : Line) (k : Str) (key : Key)
    → k ≢ []
    → Keeps (λ _. Unit {0}) Fine (edit_case is_valid l k key)
unfolding edit_case
edit_safe is_valid l k ctrl_d ne = λ e. cc
edit_safe is_valid l k escape ne = λ e. cc
edit_safe is_valid l k enter ne = Keeps-if _ Fine (is_valid l.text).2 _ _ (λ _ e. cc) (λ _. tt)
edit_safe is_valid l k backspace ne = tt
edit_safe is_valid l k space ne = tt
edit_safe is_valid l [] _ ne = absurd (ne refl)
edit_safe is_valid l (c ∷ k) _ ne = Keeps-if _ Fine (c == b'<') _ _ (λ _. tt) (λ _. tt)

-- If no key has the empty name, `processInput` never panics, in a box at least four wide: its
-- slices of the text stay within bounds, whatever the events and the check.
pub process_input_safe :
    (wid : ℕ) (is_valid : ValidCheck) (es : List Event)
    → 4 ≤ wid
    → AllNames (λ k. k ≢ []) es
    → (process_input wid is_valid es).0 ≢ panicked
unfolding edit_case
process_input_safe wid is_valid es wide named = rw (process_input-eq-edit wid is_valid es wide) (
    listen_inv (edit is_valid) (λ k. k ≢ []) (λ _. Unit {0}) Fine
      (λ l k ne _. edit_safe is_valid l k (key_of k) ne) (λ e. cc) blank es named tt)
