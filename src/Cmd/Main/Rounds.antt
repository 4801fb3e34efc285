-- ===== src/Cmd/Main/Rounds.antt =====
-- The loops of `getMainMenu` and `main` have rounds enough.
use webboot.Prelude.{
  ℕ, zero, suc, ◌≤◌, ◌<◌, Bool, Str, lit, text_eq, split, List, length, ◌≡◌, ◌≢◌, refl, arith,
  Bool-cases, inl, inr, ◌⊎◌,
}
use webboot.Exec.{
  Error, back_request, exit_request, canceled, other, Res, ok, err, blocked, panicked, exited, Exec,
  proceed,
}
use webboot.Exec.Inversion.{proceed-Post, Post-map}
use webboot.Menu.Message.{display_result}
use webboot.Menu.Taking.{Took, left, display_result-Kept, ignore_error-Kept}
use webboot.Os.{ignore_error}
use webboot.Cmd.Types.{Entry}
use webboot.Cmd.App.{FileInfo, Env, App, in_world, or_text, prompt}
use webboot.Cmd.App.Events.{
  events_left, Keeping, proceed-Keeping, prompt-Took, enough_fuel, Less, Keeping-Post,
  in_ui-Keeping,
}
use webboot.Cmd.Boot.{exec_iso, exec_dir, dir_entries}
use webboot.Cmd.Boot.Outcomes.{exec_iso-ne-ok}
use webboot.Cmd.Main.{
  Flags, main_entries, again_or_fatal, main_menu_rounds, get_main_menu, show_text, error_text,
  add_log, report, handle_error, recover, or_recover, leave_dir,
}

module _ {W : Type 0} where
  again_agree :
      (k : ℕ) (f g : Exec (App W) Entry) (p : Res Entry × App W)
      → Took events_left k p
      → ((s : App W) → events_left s < k → f s ≡ g s)
      → again_or_fatal f p ≡ again_or_fatal g p
  again_agree k f g (ok e, s) h eq = refl
  again_agree k f g (err back_request, s) h eq = eq s h
  again_agree k f g (err exit_request, s) h eq = refl
  again_agree k f g (err canceled, s) h eq = refl
  again_agree k f g (err (other m), s) h eq = refl
  again_agree k f g (blocked, s) h eq = refl
  again_agree k f g (panicked, s) h eq = refl
  again_agree k f g (exited n, s) h eq = refl

  one_menu_more :
      (n : ℕ) (cache_dir : Str) (s : App W)
      → events_left s < n
      → main_menu_rounds (suc n) cache_dir s ≡ main_menu_rounds n cache_dir s
  unfolding main_menu_rounds
  one_menu_more zero cache_dir s h = absurd (omega arith)
  one_menu_more (suc n) cache_dir s h =
      again_agree (events_left s) (main_menu_rounds (suc n) cache_dir)
        (main_menu_rounds n cache_dir) (prompt (lit "Webboot") (main_entries cache_dir) s)
        (prompt-Took (lit "Webboot") (main_entries cache_dir) s)
        (λ t lt. one_menu_more n cache_dir t (omega arith))

  -- `getMainMenu` has rounds enough: with any number of rounds that is larger than the number of events it does the same.
  pub main_menu_rounds_enough :
      (n : ℕ) (cache_dir : Str) (s : App W)
      → events_left s < n
      → main_menu_rounds n cache_dir s ≡ get_main_menu cache_dir s
  unfolding get_main_menu
  main_menu_rounds_enough n cache_dir s h =
      enough_fuel (λ m. main_menu_rounds m cache_dir s) (events_left s) n
        (λ m lt. one_menu_more m cache_dir s lt) h

  again-Less :
      (k : ℕ) (f : Exec (App W) Entry) (p : Res Entry × App W)
      → Took events_left k p
      → ((s : App W) → events_left s < k → Less k (f s))
      → Less k (again_or_fatal f p)
  again-Less k f (ok e, s) h c = h
  again-Less k f (err back_request, s) h c = c s h
  again-Less k f (err exit_request, s) h c = tt
  again-Less k f (err canceled, s) h c = tt
  again-Less k f (err (other m), s) h c = tt
  again-Less k f (blocked, s) h c = tt
  again-Less k f (panicked, s) h c = tt
  again-Less k f (exited n, s) h c = tt

  pub weaken : {A : Type 0} (j k : ℕ) (p : Res A × App W) → j ≤ k → Less j p → Less k p
  weaken j k p le h =
      Post-map (λ _ t. events_left t < j) (λ _ t. events_left t < k) p h (λ a t lt. omega arith)

  menu-Less :
      (n : ℕ) (cache_dir : Str) (s : App W) → Less (events_left s) (main_menu_rounds n cache_dir s)
  unfolding main_menu_rounds
  menu-Less zero cache_dir s = tt
  menu-Less (suc n) cache_dir s =
      again-Less (events_left s) (main_menu_rounds n cache_dir)
        (prompt (lit "Webboot") (main_entries cache_dir) s)
        (prompt-Took (lit "Webboot") (main_entries cache_dir) s)
        (λ t lt.
          weaken (events_left t) (events_left s) (main_menu_rounds n cache_dir t) (omega arith)
            (menu-Less n cache_dir t))

  pub get_main_menu-Less :
      (k : ℕ) (cache_dir : Str) (s : App W) → events_left s ≤ k → Less k (get_main_menu cache_dir s)
  unfolding get_main_menu
  get_main_menu-Less k cache_dir s le =
      weaken (events_left s) k (main_menu_rounds (suc (length s.ui.events)) cache_dir s) le
        (menu-Less (suc (length s.ui.events)) cache_dir s)

  pub show_text-Keeping :
      (k : ℕ) (text : Str) (s : App W) → events_left s ≤ k → Keeping k (show_text text s)
  unfolding show_text
  show_text-Keeping k text s h =
      in_ui-Keeping k (ignore_error (display_result (split 10 text))) s
        (λ u.
          ignore_error-Kept left (left u) (display_result (split 10 text)) u
            (display_result-Kept (split 10 text) u))
        h

  report-Keeping : (k : ℕ) (e : Error) (s : App W) → events_left s ≤ k → Keeping k (report e s)
  unfolding report
  report-Keeping k e s h =
      proceed-Keeping k (show_text (error_text e s) (add_log (error_text e s) s)) _
        (show_text-Keeping k (error_text e s) (add_log (error_text e s) s) h) (λ _ t le. le)

  handle_error-Keeping :
      (k : ℕ) (e : Error) (s : App W) → events_left s ≤ k → Keeping k (handle_error e s)
  unfolding handle_error
  handle_error-Keeping k back_request s h = h
  handle_error-Keeping k exit_request s h = tt
  handle_error-Keeping k canceled s h = report-Keeping k canceled s h
  handle_error-Keeping k (other m) s h = report-Keeping k (other m) s h

  pub Keeping-Less : {A : Type 0} (j k : ℕ) (p : Res A × App W) → j < k → Keeping j p → Less k p
  Keeping-Less j k p lt h =
      Post-map (λ _ t. events_left t ≤ j) (λ _ t. events_left t < k) p (Keeping-Post j p h)
        (λ a t le. omega arith)

module _ {W : Type 0} where
  never_ok : (k : ℕ) (p : Res (Unit {0}) × App W) → p.0 ≢ ok tt → Less k p
  never_ok k (ok u, s) h = absurd (h refl)
  never_ok k (err e, s) h = tt
  never_ok k (blocked, s) h = tt
  never_ok k (panicked, s) h = tt
  never_ok k (exited n, s) h = tt

module _ {W : Type 0} (env : Env W) (flags : Flags) (cache_dir : Str) where
  pub recover-Less :
      (k : ℕ) (e : Error) (s : App W) → events_left s ≤ k → Less k (recover env flags cache_dir e s)
  unfolding recover
  recover-Less k e s h =
      proceed-Post (λ _ t. events_left t ≤ k) (handle_error e s) _ _
        (Keeping-Post k _ (handle_error-Keeping k e s h))
        (λ _ t le. get_main_menu-Less k cache_dir t le)

  pub leave_dir-Less :
      (k : ℕ) (path : Str) (p : Res Entry × App W)
      → Took events_left k p
      → Less k (leave_dir env flags cache_dir path p)
  leave_dir-Less k path (ok e, s) h = h
  leave_dir-Less k path (err back_request, s) h = elim (Bool-cases (text_eq path cache_dir)) [
    | inl y ↦ rw (y, leave_dir) (recover-Less k back_request s (omega arith))
    | inr n ↦ rw (n, leave_dir) h
  ]
  leave_dir-Less k path (err exit_request, s) h = recover-Less k exit_request s h
  leave_dir-Less k path (err canceled, s) h = recover-Less k canceled s h
  leave_dir-Less k path (err (other m), s) h = recover-Less k (other m) s h
  leave_dir-Less k path (blocked, s) h = tt
  leave_dir-Less k path (panicked, s) h = tt
  leave_dir-Less k path (exited n, s) h = tt

  listed-Took :
      (path : Str) (s : App W) (r : Str ⊎ List FileInfo)
      → Took events_left
          (events_left s)
          (proceed (or_text r, s) (λ infos. prompt (lit "Distros") (dir_entries env path infos)))
  listed-Took path s (inl text) = omega arith
  listed-Took path s (inr infos) = prompt-Took (lit "Distros") (dir_entries env path infos) s

  pub exec_dir-Took :
      (path : Str) (s : App W) → Took events_left (events_left s) (exec_dir env path s)
  unfolding exec_dir
  exec_dir-Took path s =
      listed-Took path
        (in_world (λ w. (or_text (env.read_dir path w).0, (env.read_dir path w).1)) s).1
        (env.read_dir path s.os.world).0

  -- What an iteration does after an action: an error leads to the main menu.
  pub or_recover-Less :
      {A : Type 0} (k : ℕ) (next : A → Entry) (p : Res A × App W)
      → Less k p
      → Keeping k p
      → Less k (or_recover env flags cache_dir next p)
  or_recover-Less k next (ok a, s) l h = l
  or_recover-Less k next (err e, s) l h = recover-Less k e s h
  or_recover-Less k next (blocked, s) l h = tt
  or_recover-Less k next (panicked, s) l h = tt
  or_recover-Less k next (exited n, s) l h = tt

  pub exec_iso-Less :
      (k : ℕ) (path : Str) (boot : Bool) (s : App W) → Less k (exec_iso env path boot s)
  exec_iso-Less k path boot s =
      never_ok k (exec_iso env path boot s) (exec_iso-ne-ok env path boot s)
