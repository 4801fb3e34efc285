-- ===== src/Cmd/App/Events.antt =====
-- How many events an action of the program leaves.
use webboot.Prelude.{
  zero, ltb, ltb→lt, Bool-cases, inl, inr, ap, ◌∙◌, ℕ, suc, ◌≤◌, ◌<◌, Str, List, [], length, ◌≡◌,
  refl, arith,
}
use webboot.Exec.{
  Error, back_request, exit_request, canceled, other, Res, ok, err, blocked, panicked, exited, Exec,
  proceed,
}
use webboot.Exec.Inversion.{Post}
use webboot.Os.{Os, defer, leave, returned, wrap_error, relabelled, ignore_error}
use webboot.Wifi.Worker.{Host}
use webboot.Menu.Ui.{Ui}
use webboot.Menu.Entries.{prompt_menu_entry}
use webboot.Menu.Taking.{
  ignore_error-Kept, Kept, Took, Kept-same, Took-Kept, Kept-le, left, prompt_menu_entry-Took,
}
use webboot.Cmd.Types.{Entry, label}
use webboot.Cmd.App.{App, in_ui, in_os, in_world, in_host, prompt}

abbrev pub events_left : {W : Type 0} → App W → ℕ
events_left s = length s.ui.events

-- At most `k` events are left where the action returns.
abbrev pub Keeping : {W A : Type 0} → ℕ → Res A × App W → Type 0
Keeping k p = Kept events_left k p

module _ {W A B : Type 0} where
  -- The rule of sequences.
  pub proceed-Keeping :
      (k : ℕ) (p : Res A × App W) (f : A → Exec (App W) B)
      → Keeping k p
      → ((a : A) (s : App W) → events_left s ≤ k → Keeping k (f a s))
      → Keeping k (proceed p f)
  proceed-Keeping k (ok a, s) f h g = g a s h
  proceed-Keeping k (err e, s) f h g = h
  proceed-Keeping k (blocked, s) f h g = tt
  proceed-Keeping k (panicked, s) f h g = tt
  proceed-Keeping k (exited n, s) f h g = tt

module _ {W : Type 0} where
  panicked-Kept :
      (A : Type 0) (k : ℕ) (r : Res (Unit {0})) (s : App W)
      → Keeping {W = W} {A = A} k (returned panicked r, s)
  panicked-Kept A k (ok u) s = tt
  panicked-Kept A k (err e) s = tt
  panicked-Kept A k blocked s = tt
  panicked-Kept A k panicked s = tt
  panicked-Kept A k (exited n) s = tt

module _ {W A : Type 0} where
  pub in_os-Keeping :
      (k : ℕ) (m : Exec (Os W) A) (s : App W) → events_left s ≤ k → Keeping k (in_os m s)
  in_os-Keeping k m s h = Kept-same events_left k (m s.os).0 (in_os m s).1 h

  pub in_world-Keeping :
      (k : ℕ) (f : W → Res A × W) (s : App W) → events_left s ≤ k → Keeping k (in_world f s)
  in_world-Keeping k f s h = Kept-same events_left k (in_world f s).0 (in_world f s).1 h

  pub in_host-Keeping :
      (k : ℕ) (m : Exec (Host W) A) (s : App W) → events_left s ≤ k → Keeping k (in_host m s)
  in_host-Keeping k m s h = Kept-same events_left k (in_host m s).0 (in_host m s).1 h

  ui-Kept :
      (k : ℕ) (s : App W) (p : Res A × Ui) → Kept left k p → Keeping k (p.0, record s { ui = p.1 })
  ui-Kept k s (ok a, u) h = h
  ui-Kept k s (err e, u) h = h
  ui-Kept k s (blocked, u) h = tt
  ui-Kept k s (panicked, u) h = tt
  ui-Kept k s (exited n, u) h = tt

  pub in_ui-Keeping :
      (k : ℕ) (m : Exec Ui A) (s : App W)
      → ((u : Ui) → Kept left (left u) (m u))
      → events_left s ≤ k
      → Keeping k (in_ui m s)
  in_ui-Keeping k m s h le = ui-Kept k s (m s.ui) (Kept-le left (left s.ui) k (m s.ui) le (h s.ui))

  pub ui-Took :
      (k : ℕ) (s : App W) (p : Res A × Ui)
      → Took left k p
      → Took events_left k (p.0, record s { ui = p.1 })
  ui-Took k s (ok a, u) h = h
  ui-Took k s (err back_request, u) h = h
  ui-Took k s (err exit_request, u) h = h
  ui-Took k s (err canceled, u) h = h
  ui-Took k s (err (other m), u) h = h
  ui-Took k s (blocked, u) h = tt
  ui-Took k s (panicked, u) h = tt
  ui-Took k s (exited n, u) h = tt

  relabelled-Kept :
      (k : ℕ) (f : Error → Error) (p : Res A × App W) → Keeping k p → Keeping k (relabelled f p)
  relabelled-Kept k f (ok a, s) h = h
  relabelled-Kept k f (err e, s) h = h
  relabelled-Kept k f (blocked, s) h = tt
  relabelled-Kept k f (panicked, s) h = tt
  relabelled-Kept k f (exited n, s) h = tt

  leave-Kept :
      (k : ℕ) (cleanup : Exec (App W) (Unit {0})) (p : Res A × App W)
      → ((t : App W) → events_left t ≤ k → events_left (cleanup t).1 ≤ k)
      → Keeping k p
      → Keeping k (leave cleanup p)
  leave-Kept k cleanup (ok a, s) c h =
      Kept-same events_left k (returned (ok a) (cleanup s).0) (cleanup s).1 (c s h)
  leave-Kept k cleanup (err e, s) c h =
      Kept-same events_left k (returned (err e) (cleanup s).0) (cleanup s).1 (c s h)
  leave-Kept k cleanup (panicked, s) c h = panicked-Kept A k (cleanup s).0 (cleanup s).1
  leave-Kept k cleanup (blocked, s) c h = tt
  leave-Kept k cleanup (exited n, s) c h = tt

  pub wrap_error-Keeping :
      (k : ℕ) (f : Error → Error) (m : Exec (App W) A) (s : App W)
      → Keeping k (m s)
      → Keeping k (wrap_error f m s)
  unfolding wrap_error
  wrap_error-Keeping k f m s h = relabelled-Kept k f (m s) h

  pub ignore_error-Keeping :
      (k : ℕ) (m : Exec (App W) A) (s : App W) → Keeping k (m s) → Keeping k (ignore_error m s)
  ignore_error-Keeping k m s h = ignore_error-Kept events_left k m s h

  pub defer-Keeping :
      (k : ℕ) (cleanup : Exec (App W) (Unit {0})) (body : Exec (App W) A) (s : App W)
      → ((t : App W) → events_left t ≤ k → events_left (cleanup t).1 ≤ k)
      → Keeping k (body s)
      → Keeping k (defer cleanup body s)
  unfolding defer
  defer-Keeping k cleanup body s c h = leave-Kept k cleanup (body s) c h

module _ {W : Type 0} where
  -- A prompt takes an event before it returns an entry or a request to go back.
  pub prompt-Took :
      (title : Str) (entries : List Entry) (s : App W)
      → Took events_left (events_left s) (prompt title entries s)
  unfolding prompt
  prompt-Took title entries s =
      ui-Took (events_left s) s (prompt_menu_entry label title entries [] s.ui)
        (prompt_menu_entry-Took label title entries [] s.ui)

  pub prompt-Keeping :
      (k : ℕ) (title : Str) (entries : List Entry) (s : App W)
      → events_left s ≤ k
      → Keeping k (prompt title entries s)
  prompt-Keeping k title entries s h =
      Kept-le events_left (events_left s) k _ h
        (Took-Kept events_left (events_left s) _ (prompt-Took title entries s))

-- Less than `k` events are left where the action returns a value.
abbrev pub Less : {W A : Type 0} → ℕ → Res A × App W → Type 0
Less k p = Post (λ a s. events_left s < k) p

module _ {W A : Type 0} where
  pub Took-Less : (k : ℕ) (p : Res A × App W) → Took events_left k p → Less k p
  Took-Less k (ok a, s) h = h
  Took-Less k (err e, s) h = tt
  Took-Less k (blocked, s) h = tt
  Took-Less k (panicked, s) h = tt
  Took-Less k (exited n, s) h = tt

  pub Keeping-Post : (k : ℕ) (p : Res A × App W) → Keeping k p → Post (λ a s. events_left s ≤ k) p
  Keeping-Post k (ok a, s) h = h
  Keeping-Post k (err e, s) h = tt
  Keeping-Post k (blocked, s) h = tt
  Keeping-Post k (panicked, s) h = tt
  Keeping-Post k (exited n, s) h = tt

  pub Keeping-le : (k n : ℕ) (p : Res A × App W) → k ≤ n → Keeping k p → Keeping n p
  Keeping-le k n p le h = Kept-le events_left k n p le h

module _ {W A B : Type 0} where
  -- Two chains with one first step agree if the rest does, with fewer events left.
  pub proceed_agree-Less :
      (k : ℕ) (p : Res A × App W) (f g : A → Exec (App W) B)
      → Less k p
      → ((a : A) (s : App W) → events_left s < k → f a s ≡ g a s)
      → proceed p f ≡ proceed p g
  proceed_agree-Less k (ok a, s) f g h e = e a s h
  proceed_agree-Less k (err x, s) f g h e = refl
  proceed_agree-Less k (blocked, s) f g h e = refl
  proceed_agree-Less k (panicked, s) f g h e = refl
  proceed_agree-Less k (exited n, s) f g h e = refl

  pub proceed_agree :
      (k : ℕ) (p : Res A × App W) (f g : A → Exec (App W) B)
      → Keeping k p
      → ((a : A) (s : App W) → events_left s ≤ k → f a s ≡ g a s)
      → proceed p f ≡ proceed p g
  proceed_agree k (ok a, s) f g h e = e a s h
  proceed_agree k (err x, s) f g h e = refl
  proceed_agree k (blocked, s) f g h e = refl
  proceed_agree k (panicked, s) f g h e = refl
  proceed_agree k (exited n, s) f g h e = refl

-- A loop on fuel that needs less than `n` rounds does not change with more of them.
pub enough_fuel :
    {X : Type 0} (f : ℕ → X) (k n : ℕ)
    → ((m : ℕ) → k < m → f (suc m) ≡ f m)
    → k < n
    → f n ≡ f (suc k)
enough_fuel f k zero more lt = absurd (omega arith)
enough_fuel f k (suc n) more lt = elim (Bool-cases (ltb k n)) [
  | inl y ↦ let h = ltb→lt k n y in more n h ∙ enough_fuel f k n more h
  | inr no_more ↦ let e : n ≡ k = ground arith in ap (λ m. f (suc m)) e
]
