-- ===== src/Tests/Progress.antt =====
-- The progress bar of pkg/menu/menu.go: runs of its two threads.
use webboot.Prelude.{ℕ, Bool, true, ◌++◌, Str, lit, none, some, ◌≤◌, ◌≡◌, ◌⊎◌, refl}
use webboot.Menu.Progress.{
  Holder, closed, signalling, Animator, Progress, new_progress, Step, close, signal, acknowledge,
  clear, wait, wake, read, add_dots, draw, put_back, Reach, start, later, Run, none_yet, more,
}
use webboot.Menu.Progress.Closing.{is_over, Close-returns, closed-IsStill}
use webboot.Menu.Progress.Drawing.{
  Unchanged, unchanged_start, unchanged_later, IsDotted, screen-IsDotted,
}

abbrev scanning : Str
scanning = lit "Scanning"

-- `Close` while the animation sleeps.
abbrev interrupted : Progress
interrupted = record {
  text = scanning;
  screen = some scanning;
  holder = signalling;
  animator = Animator.sleeping 0;
}

interrupted-Reach : Reach scanning true interrupted
unfolding new_progress
interrupted-Reach = later (later start (wait refl (λ e. cc))) (close refl (λ e. cc))

abbrev done : Progress
done = record { text = scanning; screen = none; holder = closed; animator = Animator.ended }

interrupted-Run : Run interrupted 8 done
interrupted-Run =
    more
      (more
        (more
          (more
            (more (more (more (more none_yet (wake refl)) (read refl)) (add_dots refl)) (draw refl))
            (put_back refl))
          (signal refl refl))
        (acknowledge refl refl))
      (clear refl)

Close-returns_example : (8 ≤ 8) × ((done.holder ≡ closed) ⊎ ((r : Progress) × Step done r))
Close-returns_example = Close-returns interrupted-Reach refl interrupted-Run

Reach-Run :
    {text : Str} {animated : Bool} {p q : Progress} {n : ℕ}
    → Reach text animated p
    → Run p n q
    → Reach text animated q
Reach-Run r none_yet = r
Reach-Run r (more run s) = later (Reach-Run r run) s

closed-IsStill_example :
    (done.screen ≡ none) × (is_over done.animator ≡ true) × ¬ ((q : Progress) × Step done q)
closed-IsStill_example = closed-IsStill (Reach-Run interrupted-Reach interrupted-Run) refl

-- The second round of the animation draws one dot.
abbrev one_dot : Progress
one_dot = record {
  text = lit "Scanning" ++ lit ".";
  screen = some (lit "Scanning" ++ lit ".");
  holder = Holder.free;
  animator = Animator.drawn 1 scanning;
}

one_dot-Unchanged : Unchanged scanning true one_dot
unfolding new_progress lit
one_dot-Unchanged =
    unchanged_later
      (unchanged_later
        (unchanged_later
          (unchanged_later
            (unchanged_later
              (unchanged_later
                (unchanged_later
                  (unchanged_later
                    (unchanged_later
                      (unchanged_later
                        (unchanged_later unchanged_start (wait refl (λ e. cc)) (λ e. cc))
                        (wake refl) (λ e. cc))
                      (read refl) (λ e. cc))
                    (add_dots refl) (λ e. cc))
                  (draw refl) (λ e. cc))
                (put_back refl) (λ e. cc))
              (wait refl (λ e. cc)) (λ e. cc))
            (wake refl) (λ e. cc))
          (read refl) (λ e. cc))
        (add_dots refl) (λ e. cc))
      (draw refl) (λ e. cc)

screen-IsDotted_example : IsDotted scanning (lit "Scanning" ++ lit ".")
screen-IsDotted_example = screen-IsDotted one_dot-Unchanged refl
