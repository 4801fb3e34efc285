-- ===== src/Menu/TextInput/Accepted.antt =====
-- What the check of a prompt says of the text that the prompt returns.
use webboot.Prelude.{Bool, true, Str, [], ◌∷◌, ◌==◌, ◌≡◌, refl, ap, ◌∙◌, arith}
use webboot.Exec.{Res, ok, map_res}
use webboot.Menu.Event.{Keeps, Keeps-if, AnyName, AllNames-AnyName, listen_inv}
use webboot.Menu.Key.{Key, ctrl_d, escape, enter, backspace, space, key_of}
use webboot.Menu.Ui.{Ui, announce}
use webboot.Menu.TextInput.{ValidCheck, read_input, prompt_text_input}
use webboot.Menu.TextInput.Editor.{Line, edit_case, edit, check, blank, process_input-eq-edit}

-- The text is what the check makes of an input that it accepts.
abbrev pub Accepted : ValidCheck → Res Str → Type 0
Accepted is_valid (ok t) = (input : Str) × (warning : Str) × (is_valid input ≡ (t, warning, true))
Accepted is_valid _ = Unit

abbrev Passed : ValidCheck → Res (Str × Str) → Type 0
Passed is_valid r = Accepted is_valid (map_res (λ p. p.0) r)

check-Passed :
    (is_valid : ValidCheck) (l : Line) (t w : Str) (b : Bool)
    → is_valid l.text ≡ (t, w, b)
    → Keeps (λ _. Unit {0}) (Passed is_valid) (check l (t, w, b))
unfolding check map_res
check-Passed is_valid l t w b h =
    Keeps-if _ (Passed is_valid) b _ _ (λ y. (l.text, w, h ∙ ap (λ b. (t, w, b)) y)) (λ _. tt)

edit-Passed :
    (is_valid : ValidCheck) (l : Line) (k : Str) (key : Key)
    → Keeps (λ _. Unit {0}) (Passed is_valid) (edit_case is_valid l k key)
unfolding edit_case map_res
edit-Passed is_valid l k ctrl_d = tt
edit-Passed is_valid l k escape = tt
edit-Passed is_valid l k enter = check-Passed is_valid l _ _ _ refl
edit-Passed is_valid l k backspace = tt
edit-Passed is_valid l k space = tt
edit-Passed is_valid l [] _ = tt
edit-Passed is_valid l (c ∷ k) _ = Keeps-if _ (Passed is_valid) (c == b'<') _ _ (λ _. tt) (λ _. tt)

-- A text that `PromptTextInput` returns is what its check makes of some input that the check accepts.
pub prompt_text_input-Accepted :
    (title : Str) (is_valid : ValidCheck) (u : Ui)
    → Accepted is_valid (prompt_text_input title is_valid u).0
unfolding prompt_text_input announce read_input map_res edit_case
prompt_text_input-Accepted title is_valid u =
    rw (process_input-eq-edit 80 is_valid u.events (omega arith)) (
      listen_inv (edit is_valid) AnyName (λ _. Unit {0}) (Passed is_valid)
        (λ l k _ _. edit-Passed is_valid l k (key_of k)) tt blank u.events
        (AllNames-AnyName u.events) tt)
