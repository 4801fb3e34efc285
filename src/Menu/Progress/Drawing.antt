-- ===== src/Menu/Progress/Drawing.antt =====
-- What the animation draws.
use mathlib.Core.Path.{subst}
use webboot.Prelude.{
  ℕ, Bool, true, false, Str, Option, none, some, ◌++◌, ◌%◌, ◌<◌, ◌≡◌, ◌≢◌, refl, arith, sym,
  append-nil,
}
use webboot.Menu.Progress.{
  free, updating, Animator, holding, dotted, drawn, Progress, new_progress, dots, with_dots, Step,
  write, show, close, close_plain, signal, acknowledge, clear, wait, wake, read, add_dots, draw,
  put_back, Reach, start, later, Run, none_yet, more,
}

-- What can come of a new bar that nobody calls `Update` on, as the program uses animated bars.
pub data Unchanged (text : Str) (animated : Bool) : Progress → Type 0 where
  unchanged_start : Unchanged text animated (new_progress text animated)
  unchanged_later :
      {p q : Progress}
      → Unchanged text animated p
      → Step p q
      → q.holder ≢ updating
      → Unchanged text animated q

-- The text with fewer than four dots.
abbrev pub IsDotted : Str → Str → Type 0
IsDotted text shown = (n : ℕ) × (n < 4) × (shown ≡ text ++ dots n)

abbrev TextAt : Str → Str → Animator → Type 0
TextAt text now (dotted c k) = (k ≡ text) × (now ≡ with_dots c text)
TextAt text now (drawn c k) = (k ≡ text) × (now ≡ with_dots c text)
TextAt text now (holding c k) = (k ≡ text) × (now ≡ text)
TextAt text now _ = now ≡ text

abbrev OnScreen : Str → Option Str → Type 0
OnScreen text none = Unit
OnScreen text (some s) = IsDotted text s

record Shows (text : Str) (p : Progress) : Type 0 where
  now : TextAt text p.text p.animator
  screen : OnScreen text p.screen
  holder : p.holder ≢ updating

Step-Shows :
    {text : Str} {p q : Progress} → Step p q → q.holder ≢ updating → Shows text p → Shows text q
Step-Shows (write t h) u s = absurd (u refl)
Step-Shows (show h) u s = absurd (s.holder h)
Step-Shows (close h k) u s = ground arith
Step-Shows (close_plain h k) u s = ground arith
Step-Shows (signal h k) u s = ground arith
Step-Shows (acknowledge h k) u s = ground arith
Step-Shows (clear h) u s = ground arith
Step-Shows (wait h k) u s = ground arith
Step-Shows (wake h) u s = ground arith
Step-Shows (read h) u s = ground arith
Step-Shows (add_dots h) u s = ground arith
Step-Shows (draw {counter} h) u s = record {
  now = ground arith;
  screen = (counter % 4, omega arith, ground arith);
  holder = u;
}
Step-Shows (put_back h) u s = ground arith

new-Shows : (text : Str) (animated : Bool) → Shows text (new_progress text animated)
unfolding new_progress
new-Shows text true = record {
  now = refl;
  screen = (0, omega arith, sym (append-nil text));
  holder = λ e. cc;
}
new-Shows text false = record {
  now = refl;
  screen = (0, omega arith, sym (append-nil text));
  holder = λ e. cc;
}

Unchanged-Shows :
    {text : Str} {animated : Bool} {p : Progress} → Unchanged text animated p → Shows text p
Unchanged-Shows {text} {animated} unchanged_start = new-Shows text animated
Unchanged-Shows (unchanged_later r s u) = Step-Shows s u (Unchanged-Shows r)

-- As long as nobody calls `Update` on a bar, what is on the screen is its first text with fewer
-- than four dots, however the threads are interleaved.
pub screen-IsDotted :
    {text shown : Str} {animated : Bool} {p : Progress}
    → Unchanged text animated p
    → p.screen ≡ some shown
    → IsDotted text shown
screen-IsDotted {text} r e = subst (OnScreen text) e (Unchanged-Shows r).screen

-- A text that `Update` has written between two steps of the animation is lost: the animation puts
-- the old text back.
abbrev IsLost : Str → Str → Type 0
IsLost old new =
    (p : Progress) × (q : Progress) × Reach old true p
    × (p.text ≡ new)
    × (p.holder ≡ free)
    × Run p 3 q
    × (q.text ≡ old)

Update-IsLost : (old new : Str) → IsLost old new
unfolding new_progress
Update-IsLost old new = (
  _,
  _,
  later
      (later (later (later (later start (wait refl (λ e. cc))) (wake refl)) (read refl))
        (write new refl))
      (show refl),
  refl,
  refl,
  more (more (more none_yet (add_dots refl)) (draw refl)) (put_back refl),
  refl,
)
