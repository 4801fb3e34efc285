-- ===== src/Menu/Confirm/Answers.antt =====
-- The answer of `PromptConfirmation`, against a prompt that keeps a mark in place of a text.
use webboot.Prelude.{
  true, false, Bool, Str, lit, text_eq, text_eq_iff, List, [], ◌∷◌, ◌++◌, ◌||◌, if◌then◌else◌, ◌≡◌,
  refl, sym, ◌∙◌, Option, none, some, Bool-cases, inl, inr,
}
use webboot.Exec.{back_request, exit_request, Res, ok, err, IsRequest, blocked, panicked, exited}
use webboot.Menu.Event.{
  Event, Next, again, stop, listen, Agree, listen_sim, Keeps, listen_inv, AnyName, AllNames-AnyName,
  presses, press, listen_again, listen_stop,
}
use webboot.Menu.Key.{Key, ctrl_d, escape, enter, backspace, key_of}
use webboot.Menu.Confirm.{confirm_enter, confirm_case, confirm_step, await_answer}

-- The text that stands for a mark: `none` is an empty box.
abbrev pub entry_of : Option Bool → Str
entry_of none = []
entry_of (some true) = lit "0"
entry_of (some false) = lit "1"

enter_mark : Option Bool → Next (Option Bool) Bool
enter_mark none = again none
enter_mark (some b) = stop (ok b)

-- What a key that ends nothing does to the mark: 0 marks yes, 1 marks no, Backspace clears, and
-- the other keys leave the mark as it was.
unfoldable pub mark_key : Option Bool → Str → Key → Option Bool
mark_key m k backspace = none
mark_key m k _ =
    if text_eq k (lit "0") then some true else if text_eq k (lit "1") then some false else m

unfoldable pub mark_case : Option Bool → Str → Key → Next (Option Bool) Bool
unfolding enter_mark mark_key
mark_case m k escape = stop (err back_request)
mark_case m k ctrl_d = stop (err exit_request)
mark_case m k enter = enter_mark m
mark_case m k key = again (mark_key m k key)

abbrev pub mark : Option Bool → Str → Next (Option Bool) Bool
unfolding mark_case
mark m k = mark_case m k (key_of k)

abbrev Marks : Str → Option Bool → Type 0
Marks entry m = entry ≡ entry_of m

enter-Marks : (m : Option Bool) → Agree Marks (confirm_enter (entry_of m)) (enter_mark m)
unfolding confirm_enter enter_mark text_eq lit
enter-Marks none = refl
enter-Marks (some true) = refl
enter-Marks (some false) = refl

key-Marks :
    (entry k : Str) (m : Option Bool)
    → Marks entry m
    → Agree {A = Bool} Marks
        (if text_eq k (lit "0") || text_eq k (lit "1") then again k else again entry)
        (again (
          if text_eq k (lit "0") then some true else if text_eq k (lit "1") then some false else m))
key-Marks entry k m h = elim (Bool-cases (text_eq k (lit "0"))) [
  | inl y ↦ rw y ((text_eq_iff k (lit "0")).0 y)
  | inr n ↦ elim (Bool-cases (text_eq k (lit "1"))) [
    | inl y ↦ rw (n, y) ((text_eq_iff k (lit "1")).0 y)
    | inr n' ↦ rw (n, n') h
  ]
]

case-Marks :
    (entry k : Str) (m : Option Bool) (key : Key)
    → Marks entry m
    → Agree Marks (confirm_case entry k key) (mark_case m k key)
unfolding confirm_case mark_case
case-Marks entry k m escape h = refl
case-Marks entry k m ctrl_d h = refl
case-Marks entry k m enter h = rw h (enter-Marks m)
case-Marks entry k m backspace h = refl
case-Marks entry k m _ h = key-Marks entry k m h

await_answer-eq-mark : (es : List Event) → await_answer es ≡ listen mark none es
unfolding await_answer mark_case
await_answer-eq-mark es =
    listen_sim confirm_step mark Marks (λ s m k h. case-Marks s k m (key_of k) h) [] none es refl

-- Keys that neither answer nor leave.
abbrev pub IsIdle : Key → Type 0
IsIdle ctrl_d = ⊥
IsIdle escape = ⊥
IsIdle enter = ⊥
IsIdle _ = Unit

abbrev pub AllIdle : List Str → Type 0
AllIdle [] = Unit
AllIdle (k ∷ ks) = IsIdle (key_of k) × AllIdle ks

-- The mark after some keys.
abbrev pub marked : Option Bool → List Str → Option Bool
marked m [] = m
marked m (k ∷ ks) = marked (mark_key m k (key_of k)) ks

step_idle :
    (m : Option Bool) (k : Str) (key : Key)
    → IsIdle key
    → mark_case m k key ≡ again (mark_key m k key)
unfolding mark_case
step_idle m k ctrl_d h = absurd h
step_idle m k escape h = absurd h
step_idle m k enter h = absurd h
step_idle m k _ h = refl

idle_keys :
    (ks : List Str) (m : Option Bool) (es : List Event)
    → AllIdle ks
    → listen mark m (presses ks ++ es) ≡ listen mark (marked m ks) es
unfolding mark_case
idle_keys [] m es h = refl
idle_keys (k ∷ ks) m es h =
    listen_again mark m _ k (presses ks ++ es) (step_idle m k (key_of k) h.0)
    ∙ idle_keys ks (mark_key m k (key_of k)) es h.1

abbrev pub answered : Option Bool → List Event → Res Bool × List Event
answered none es = await_answer es
answered (some b) es = (ok b, es)

enter_idle :
    (m : Option Bool) (es : List Event) → listen mark m (press (lit "<Enter>") ∷ es) ≡ answered m es
unfolding mark_case key_of text_eq lit
enter_idle none es = listen_again mark none none _ es refl ∙ sym (await_answer-eq-mark es)
enter_idle (some b) es = listen_stop mark (some b) (ok b) _ es refl

-- After keys that neither answer nor leave, Enter gives the answer of the last of 0, 1 and
-- Backspace among them: yes, no, or none, and then the prompt starts again.
pub await_answer-marked :
    (ks : List Str) (es : List Event)
    → AllIdle ks
    → await_answer (presses ks ++ press (lit "<Enter>") ∷ es) ≡ answered (marked none ks) es
await_answer-marked ks es h =
    await_answer-eq-mark _ ∙ idle_keys ks none _ h ∙ enter_idle (marked none ks) es

abbrev pub IsAnswer : Res Bool → Type 0
IsAnswer (ok b) = Unit
IsAnswer (err e) = IsRequest e
IsAnswer blocked = Unit
IsAnswer panicked = ⊥
IsAnswer (exited n) = ⊥

enter-IsAnswer : (m : Option Bool) → Keeps (λ _. Unit {0}) IsAnswer (enter_mark m)
unfolding enter_mark
enter-IsAnswer none = tt
enter-IsAnswer (some b) = tt

case-IsAnswer :
    (m : Option Bool) (k : Str) (key : Key) → Keeps (λ _. Unit {0}) IsAnswer (mark_case m k key)
unfolding mark_case
case-IsAnswer m k escape = tt
case-IsAnswer m k ctrl_d = tt
case-IsAnswer m k enter = enter-IsAnswer m
case-IsAnswer m k _ = tt

-- Whatever the events, `PromptConfirmation` answers, asks to go back or to leave, or waits.
pub await_answer-IsAnswer : (es : List Event) → IsAnswer (await_answer es).0
unfolding mark_case
await_answer-IsAnswer es = rw await_answer-eq-mark (
    listen_inv mark AnyName (λ _. Unit {0}) IsAnswer (λ m k _ _. case-IsAnswer m k (key_of k)) tt
      none es (AllNames-AnyName es) tt)
