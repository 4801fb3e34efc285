-- ===== src/Cmd/Counter/Bar.antt =====
-- The counter drives its bar as `Progress` allows, and is never behind the file.
use webboot.Prelude.{
  ℕ, ◌≤◌, false, ℤ, Str, List, [], ◌∷◌, Option, none, some, take, length, length-append,
  length-take, ◌≡◌, refl, arith,
}
use webboot.Exec.{Error}
use webboot.Menu.Progress.{
  Progress, new_progress, free, off, Reach, start, later, write as write_step, show, close_plain,
  clear,
}
use webboot.Cmd.Counter.{
  new_write_counter, update, close_bar, End, going, eof, failed, Read, Outcome, copied, waiting,
  stopped, Copy, write, close_counter, closing, tee_write, written, copy_counted, counted_download,
}

-- A bar without an animation that can come of the calls made, and that nobody has closed.
abbrev Open : Progress → Type 0
Open p = Reach [] false p × (p.holder ≡ free) × (p.animator ≡ off)

update-Open : (text : Str) (p : Progress) → Open p → Open (update text p)
unfolding update
update-Open text p (r, h, a) = (later (later r (write_step text h)) (show refl), refl, a)

close_bar-Reach : (p : Progress) → Open p → Reach [] false (close_bar p)
unfolding close_bar
close_bar-Reach p (r, h, a) = later (later r (close_plain h a)) (clear refl)

record Fair (s : Copy) : Type 0 where
  bar : Open s.counter.progress
  count : length s.file ≤ s.counter.received

-- What shows of a copy that is over, or that waits.
abbrev pub IsShown : Outcome → Progress → Type 0
IsShown waiting p = p.holder ≡ free
IsShown copied p = p.screen ≡ none
IsShown (stopped e) p = p.screen ≡ none

abbrev pub IsCounted : Outcome × Copy → Type 0
IsCounted (o, s) =
    Reach [] false s.counter.progress
    × IsShown o s.counter.progress
    × (length s.file ≤ s.counter.received)

module _ (render : ℕ → ℤ → Str) (accept : Str → Str → ℕ × Option Error) where
  tee_write-Fair : (p : Str) (s : Copy) → Fair s → Fair (tee_write render accept p s).1
  unfolding tee_write write
  tee_write-Fair [] s f = f
  tee_write-Fair (c ∷ p) s f = record {
    bar = update-Open _ s.counter.progress f.bar;
    count =
        let n = (accept s.file (c ∷ p)).0 in
        omega (arith, f.count, length-append s.file (take n (c ∷ p)), length-take n (c ∷ p));
  }

  written-Fair :
      (w : Option Error × Copy) (end : End) (next : Copy → Outcome × Copy)
      → Fair w.1
      → ((t : Copy) → Fair t → Fair (next t).1)
      → Fair (written w end next).1
  written-Fair (some e, t) end next f k = f
  written-Fair (none, t) going next f k = k t f
  written-Fair (none, t) eof next f k = f
  written-Fair (none, t) (failed e) next f k = f

  copy_counted-Fair :
      (rs : List Read) (s : Copy) → Fair s → Fair (copy_counted render accept rs s).1
  unfolding copy_counted
  copy_counted-Fair [] s f = f
  copy_counted-Fair (r ∷ rs) s f =
      written-Fair (tee_write render accept r.bytes s) r.end _ (tee_write-Fair r.bytes s f)
        (λ t k. copy_counted-Fair rs t k)

  closing-IsCounted : (r : Outcome × Copy) → Fair r.1 → IsCounted (closing r)
  unfolding closing close_counter close_bar
  closing-IsCounted (waiting, s) f = (f.bar.0, f.bar.1, f.count)
  closing-IsCounted (copied, s) f = (close_bar-Reach s.counter.progress f.bar, refl, f.count)
  closing-IsCounted (stopped e, s) f = (close_bar-Reach s.counter.progress f.bar, refl, f.count)

  -- Whatever the response, its length and the file, the bar of a counter goes through steps of a bar that is not animated, it is off the screen once the copy is over, and the counter is never behind the file.
  pub counted_download-IsCounted :
      (size : ℤ) (rs : List Read) → IsCounted (counted_download render accept size rs)
  unfolding counted_download new_write_counter new_progress
  counted_download-IsCounted size rs =
      closing-IsCounted (copy_counted render accept rs _)
        (copy_counted-Fair rs _ (record { bar = (start, refl, refl); count = omega arith }))
