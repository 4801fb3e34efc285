-- ===== src/Menu/Taking.antt =====
-- Prompts take events away: how many are left.
use webboot.Prelude.{
  ℕ, suc, ◌≤◌, ◌<◌, Str, lit, List, [], ◌∷◌, ◌++◌, Option, none, some, length, ◌≡◌, refl, arith,
  Bool-cases, inl, inr,
}
use webboot.Exec.{
  back_request, exit_request, canceled, other, Res, ok, err, blocked, panicked, exited, Exec,
  map_res, proceed,
}
use webboot.Os.{ignore_error, dropped}
use webboot.Menu.Event.{Event, is_input, Next, again, stop, listen}
use webboot.Menu.TextInput.{
  ValidCheck, process_input, input_step, opened, read_input, prompt_text_input,
}
use webboot.Menu.Message.{scroll, scroll_step, begin, show, display_result}
use webboot.Menu.Options.{parsing_menu_option}
use webboot.Menu.Options.Asking.{ask, parsing_menu_option-eq-ask}
use webboot.Menu.Entries.{numbered, options, choose, prompt_menu_entry, entry_at}
use webboot.Menu.Confirm.{confirm_step, await_answer, ask_user, prompt_confirmation}
use webboot.Menu.Ui.{Ui, announce, read_log, logged}

-- At most `k` events are left where the action returns.
abbrev pub Kept : {S A : Type 0} → (S → ℕ) → ℕ → Res A × S → Type 0
Kept size k (ok a, s) = size s ≤ k
Kept size k (err e, s) = size s ≤ k
Kept size k (blocked, s) = Unit
Kept size k (panicked, s) = Unit
Kept size k (exited n, s) = Unit

-- Less than `k` events are left where the action returns a value or a request to go back, and at
-- most `k` where it returns another error.
abbrev pub Took : {S A : Type 0} → (S → ℕ) → ℕ → Res A × S → Type 0
Took size k (ok a, s) = size s < k
Took size k (err back_request, s) = size s < k
Took size k (err exit_request, s) = size s ≤ k
Took size k (err canceled, s) = size s ≤ k
Took size k (err (other m), s) = size s ≤ k
Took size k (blocked, s) = Unit
Took size k (panicked, s) = Unit
Took size k (exited n, s) = Unit

module _ {S A : Type 0} (size : S → ℕ) where
  pub Kept-same : (k : ℕ) (r : Res A) (s : S) → size s ≤ k → Kept size k (r, s)
  Kept-same k (ok a) s h = h
  Kept-same k (err e) s h = h
  Kept-same k blocked s h = tt
  Kept-same k panicked s h = tt
  Kept-same k (exited n) s h = tt

  pub Took-less : (k : ℕ) (r : Res A) (s : S) → size s < k → Took size k (r, s)
  Took-less k (ok a) s h = h
  Took-less k (err back_request) s h = h
  Took-less k (err exit_request) s h = omega arith
  Took-less k (err canceled) s h = omega arith
  Took-less k (err (other m)) s h = omega arith
  Took-less k blocked s h = tt
  Took-less k panicked s h = tt
  Took-less k (exited n) s h = tt

  pub Took-Kept : (k : ℕ) (p : Res A × S) → Took size k p → Kept size k p
  Took-Kept k (ok a, s) h = omega arith
  Took-Kept k (err back_request, s) h = omega arith
  Took-Kept k (err exit_request, s) h = h
  Took-Kept k (err canceled, s) h = h
  Took-Kept k (err (other m), s) h = h
  Took-Kept k (blocked, s) h = tt
  Took-Kept k (panicked, s) h = tt
  Took-Kept k (exited n, s) h = tt

  pub Kept-le : (k n : ℕ) (p : Res A × S) → k ≤ n → Kept size k p → Kept size n p
  Kept-le k n (ok a, s) le h = omega arith
  Kept-le k n (err e, s) le h = omega arith
  Kept-le k n (blocked, s) le h = tt
  Kept-le k n (panicked, s) le h = tt
  Kept-le k n (exited m, s) le h = tt

  dropped-Kept : (k : ℕ) (p : Res A × S) → Kept size k p → Kept size k (dropped p)
  dropped-Kept k (ok a, s) h = h
  dropped-Kept k (err e, s) h = h
  dropped-Kept k (blocked, s) h = tt
  dropped-Kept k (panicked, s) h = tt
  dropped-Kept k (exited n, s) h = tt

  pub ignore_error-Kept :
      (k : ℕ) (m : Exec S A) (s : S) → Kept size k (m s) → Kept size k (ignore_error m s)
  unfolding ignore_error
  ignore_error-Kept k m s h = dropped-Kept k (m s) h

-- A loop over events takes at least one before it returns.
abbrev Taken : {A : Type 0} → ℕ → Res A × List Event → Type 0
Taken k (blocked, es) = Unit
Taken k (ok a, es) = length es < k
Taken k (err e, es) = length es < k
Taken k (panicked, es) = length es < k
Taken k (exited n, es) = length es < k

Taken-after : {A : Type 0} (k : ℕ) (r : Res A) (es : List Event) → length es < k → Taken k (r, es)
Taken-after k (ok a) es h = h
Taken-after k (err e) es h = h
Taken-after k blocked es h = tt
Taken-after k panicked es h = h
Taken-after k (exited n) es h = h

Taken-suc : {A : Type 0} (k : ℕ) (p : Res A × List Event) → Taken k p → Taken (suc k) p
Taken-suc k (ok a, es) h = omega arith
Taken-suc k (err e, es) h = omega arith
Taken-suc k (blocked, es) h = tt
Taken-suc k (panicked, es) h = omega arith
Taken-suc k (exited n, es) h = omega arith

module _ {S A : Type 0} (step : S → Str → Next S A) where
  next-Taken :
      (es : List Event) (n : Next S A)
      → ((s : S) → Taken (length es) (listen step s es))
      → Taken {A = A} (suc (length es)) (elim n [ again s' ↦ listen step s' es | stop r ↦ (r, es) ])
  next-Taken es (again s) h = Taken-suc _ _ (h s)
  next-Taken es (stop r) h = Taken-after _ r es (omega arith)

  listen-Taken : (s : S) (es : List Event) → Taken (length es) (listen step s es)
  unfolding listen
  listen-Taken s [] = tt
  listen-Taken s (e ∷ es) = elim (Bool-cases (is_input e.type)) [
    | inl t ↦ rw (t, listen) (next-Taken es (step s e.id) (λ s'. listen-Taken s' es))
    | inr f ↦ rw (f, listen) (Taken-suc _ _ (listen-Taken s es))
  ]

abbrev pub left : Ui → ℕ
left u = length u.events

in_ui-Taken :
    {A B : Type 0} (f : Res A → Res B) (k : ℕ) (u : Ui) (p : Res A × List Event)
    → (f blocked ≡ blocked)
    → Taken k p
    → Took left k (f p.0, record u { events = p.1 })
in_ui-Taken f k u (ok a, es) b h = Took-less left k (f (ok a)) _ h
in_ui-Taken f k u (err e, es) b h = Took-less left k (f (err e)) _ h
in_ui-Taken f k u (blocked, es) b h = rw b tt
in_ui-Taken f k u (panicked, es) b h = Took-less left k (f panicked) _ h
in_ui-Taken f k u (exited n, es) b h = Took-less left k (f (exited n)) _ h

pub prompt_text_input-Took :
    (title : Str) (is_valid : ValidCheck) (u : Ui)
    → Took left (left u) (prompt_text_input title is_valid u)
unfolding prompt_text_input announce read_input process_input map_res
prompt_text_input-Took title is_valid u =
    in_ui-Taken (map_res (λ p. p.0)) (left u) (record u { menus = u.menus ++ title ∷ [] })
      (process_input 80 is_valid u.events) refl
      (listen-Taken (input_step 80 is_valid) opened u.events)

pub prompt_confirmation-Took :
    (message : Str) (u : Ui) → Took left (left u) (prompt_confirmation message u)
unfolding prompt_confirmation announce ask_user await_answer
prompt_confirmation-Took message u =
    in_ui-Taken (λ r. r) (left u) (record u { menus = u.menus ++ message ∷ [] })
      (await_answer u.events) refl (listen-Taken confirm_step [] u.events)

scroll-Kept :
    (text : List Str) (es : List Event) (o : Option _) (u : Ui)
    → Kept left (length es) ((begin text es o).0, record u { events = (begin text es o).1 })
scroll-Kept text es none u = tt
scroll-Kept text es (some p) u = Took-Kept left (length es) _ (
    in_ui-Taken (λ r. r) (length es) u (listen (scroll_step text) p es) refl
      (listen-Taken (scroll_step text) p es))

pub display_result-Kept :
    (message : List Str) (u : Ui) → Kept left (left u) (display_result message u)
unfolding display_result announce show scroll
display_result-Kept [] u = tt
display_result-Kept (m ∷ ms) u = scroll-Kept _ u.events _ (record u { menus = u.menus ++ m ∷ [] })

module _ {E : Type 0} (label : E → Str) where
  choose-Took :
      (title : Str) (entries : List E) (warnings : List Str) (u : Ui)
      → Took left (left u) (choose label title entries warnings u)
  unfolding choose parsing_menu_option numbered
  choose-Took title [] warnings u = omega arith
  choose-Took title (e ∷ es) warnings u =
      let a = options label title (e ∷ es) warnings in
      in_ui-Taken (entry_at label (e ∷ es)) (left u) u
        (parsing_menu_option a (lit "<Esc> to go back, <Ctrl+d> to exit") u.events) refl
        (rw
          (parsing_menu_option-eq-ask a (lit "<Esc> to go back, <Ctrl+d> to exit") u.events
            (omega arith))
          (listen-Taken (ask a) [] u.events))

  prompt_logged :
      (title : Str) (entries : List E) (warnings : List Str) (u : Ui) (o : Option (List Str))
      → Took left (left u) (proceed (logged u o) (λ _. choose label title entries warnings))
  prompt_logged title entries warnings u none = tt
  prompt_logged title entries warnings u (some l) = choose-Took title entries warnings u

  -- `PromptMenuEntry` takes an event before it returns an entry or a request to go back.
  pub prompt_menu_entry-Took :
      (title : Str) (entries : List E) (warnings : List Str) (u : Ui)
      → Took left (left u) (prompt_menu_entry label title entries warnings u)
  unfolding prompt_menu_entry announce read_log
  prompt_menu_entry-Took title entries warnings u =
      prompt_logged title entries warnings (record u { menus = u.menus ++ title ∷ [] }) u.log_file
