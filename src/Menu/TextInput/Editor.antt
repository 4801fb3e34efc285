-- ===== src/Menu/TextInput/Editor.antt =====
-- `processInput` against a plain line editor, which keeps no window.
use mathlib.Core.Path.{subst}
use webboot.Prelude.{
  ℕ, suc, zero, ◌+◌, ◌-◌, ◌≤◌, ◌<◌, Bool, true, false, Str, lit, is_empty, List, [], ◌∷◌, ◌++◌, ◌≡◌,
  refl, sym, ap, ◌∙◌, arith, length, drop, drop_last, slice_from?-some, ◌==◌, if◌then◌else◌,
  Bool-cases, inl, inr,
}
use webboot.Exec.{back_request, exit_request, ok, err, panicked}
use webboot.Menu.Event.{Event, Next, again, stop, listen, Agree, listen_sim}
use webboot.Menu.Key.{Key, ctrl_d, escape, enter, backspace, space, key_of}
use webboot.Menu.TextInput.{
  ValidCheck, InputBox, retype, window, submit, input_case, input_step, erase, opened,
  process_input,
}

-- The line being edited, and the warning under it.
pub record Line : Type 0 where
  pub text : Str
  pub warning : Str

unfoldable pub check : Line → Str × Str × Bool → Next Line (Str × Str)
check l (input, warning, accepted) =
    if accepted
    then stop (ok (input, l.warning))
    else again (record { text = []; warning = warning })

insert : Line → Str → Next Line (Str × Str)
insert l [] = stop panicked
insert l (c ∷ k) = if c == b'<' then again l else again (record l { text = l.text ++ c ∷ k })

-- What each key means: Backspace on an empty line does nothing, and other keys with a name in
-- angle brackets are ignored.
unfoldable pub edit_case : ValidCheck → Line → Str → Key → Next Line (Str × Str)
unfolding check insert
edit_case is_valid l k ctrl_d = stop (err exit_request)
edit_case is_valid l k escape = stop (err back_request)
edit_case is_valid l k enter = check l (is_valid l.text)
edit_case is_valid l k backspace = again (record l { text = drop_last l.text })
edit_case is_valid l k space = again (record l { text = l.text ++ lit " " })
edit_case is_valid l k _ = insert l k

abbrev pub edit : ValidCheck → Line → Str → Next Line (Str × Str)
unfolding edit_case
edit is_valid l k = edit_case is_valid l k (key_of k)

abbrev pub blank : Line
blank = record { text = []; warning = opened.warning }

-- The box `s` shows the end of line `l`, as much as the window holds.
abbrev Shows : ℕ → InputBox → Line → Type 0
Shows wid s l =
    (s.full_text ≡ l.text)
    × (s.warning ≡ l.warning)
    × (s.shown ≡ drop (length l.text + 3 - wid) l.text)

drop-is_empty : (n : ℕ) (a : Str) → n < length a → is_empty (drop n a) ≡ false
drop-is_empty zero [] h = absurd (omega arith)
drop-is_empty (suc n) [] h = absurd (omega arith)
drop-is_empty zero (x ∷ a) h = refl
drop-is_empty (suc n) (x ∷ a) h = drop-is_empty n a (omega arith)

drop_nil : (n : ℕ) → drop {A = ℕ} n [] ≡ []
drop_nil zero = refl
drop_nil (suc n) = refl

drop-nil-is_empty : (n : ℕ) (a : Str) → a ≡ [] → is_empty (drop n a) ≡ true
drop-nil-is_empty n a e = rw (e, drop_nil n)

module _ (wid : ℕ) (wide : 4 ≤ wid) where
  retype_lem :
      (s : InputBox) (full : Str)
      → retype wid s full
        ≡ again (record s { full_text = full; shown = drop (length full + 3 - wid) full })
  unfolding retype window
  retype_lem s full = ground (arith, slice_from?-some (length full + 3 - wid) full)

  retype-Agree :
      (s : InputBox) (l : Line) (full text : Str)
      → full ≡ text
      → Shows wid s l
      → Agree (Shows wid) (retype wid s full) (again (record l { text = text }))
  retype-Agree s l full text e r =
      rw retype_lem (e, r.1, ap (λ (t : Str). drop (length t + 3 - wid) t) e)

  erase-Agree :
      (s : InputBox) (l : Line) (full : Str)
      → full ≡ l.text
      → Shows wid s l
      → Agree
          (Shows wid)
          (if is_empty s.shown then again s else erase wid s full)
          (again (record l { text = drop_last l.text }))
  unfolding erase
  erase-Agree s l [] e r =
      let bare : is_empty s.shown ≡ true = rw r.2 (drop-nil-is_empty _ l.text (sym e)) in
      rw bare (
        subst (λ t. Shows wid s (record l { text = drop_last t })) e
          (r.0 ∙ sym e, r.1, r.2 ∙ ap (λ (t : Str). drop (length t + 3 - wid) t) (sym e)))
  erase-Agree s l (c ∷ full) e r =
      let filled : is_empty s.shown ≡ false =
        rw (r.2, ← e) (drop-is_empty (suc (length full) + 3 - wid) (c ∷ full) (omega arith)) in
      rw filled (retype-Agree s l (drop_last (c ∷ full)) (drop_last l.text) (ap drop_last e) r)

  submit-Agree :
      (s : InputBox) (l : Line) (v : Str × Str × Bool)
      → Shows wid s l
      → Agree (Shows wid) (submit s v) (check l v)
  unfolding submit check
  submit-Agree s l (input, warning, true) r = rw r.1
  submit-Agree s l (input, warning, false) r = (refl, refl, sym (drop_nil (0 + 3 - wid)))

  step-Agree :
      (is_valid : ValidCheck) (s : InputBox) (l : Line) (k : Str) (key : Key)
      → Shows wid s l
      → Agree (Shows wid) (input_case wid is_valid s k key) (edit_case is_valid l k key)
  unfolding input_case edit_case
  step-Agree is_valid s l k ctrl_d r = refl
  step-Agree is_valid s l k escape r = refl
  step-Agree is_valid s l k enter r = rw (← r.0) (submit-Agree s l (is_valid s.full_text) r)
  step-Agree is_valid s l k backspace r = erase-Agree s l s.full_text r.0 r
  step-Agree is_valid s l k space r = retype-Agree s l _ _ (ap (λ t. t ++ lit " ") r.0) r
  step-Agree is_valid s l [] _ r = refl
  step-Agree is_valid s l (c ∷ k) _ r = elim (Bool-cases (c == b'<')) [
    | inl lt ↦ rw lt r
    | inr ne ↦ rw ne (retype-Agree s l _ _ (ap (λ t. t ++ c ∷ k) r.0) r)
  ]

-- In a box at least four wide, whatever the events and the check, `processInput` returns what a
-- line editor without a window returns, at the same event.
pub process_input-eq-edit :
    (wid : ℕ) (is_valid : ValidCheck) (es : List Event)
    → 4 ≤ wid
    → process_input wid is_valid es ≡ listen (edit is_valid) blank es
unfolding process_input input_case edit_case retype
process_input-eq-edit wid is_valid es wide =
    listen_sim (input_step wid is_valid) (edit is_valid) (Shows wid)
      (λ s l k r. step-Agree wid wide is_valid s l k (key_of k) r) opened blank es
      (refl, refl, sym (drop_nil (0 + 3 - wid)))
