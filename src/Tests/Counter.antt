-- ===== src/Tests/Counter.antt =====
-- The copy of a response at fixed inputs.
use webboot.Prelude.{
  ℕ, ℤ, pos, Str, lit, itoa, List, [], ◌∷◌, ◌++◌, Option, none, length, ◌≡◌, refl,
}
use webboot.Exec.{Error}
use webboot.Menu.Progress.{new_progress}
use webboot.Cmd.Counter.{
  going, eof, Read, counted_download, copy_counted, tee_write, write, update, close_bar,
  close_counter, closing, new_write_counter,
}
use webboot.Cmd.Counter.Totals.{brought, counted_download-copied}
use webboot.Cmd.Counter.Bar.{IsCounted, counted_download-IsCounted}

abbrev render : ℕ → ℤ → Str
render received expected = lit "Downloading... " ++ itoa received

abbrev accept_all : Str → Str → ℕ × Option Error
accept_all file p = (length p, none)

abbrev reads : List Read
reads =
    record { bytes = lit "ab"; end = going }
    ∷ record { bytes = []; end = going }
    ∷ record { bytes = lit "cde"; end = eof }
    ∷ []

counted_download-copied_example :
    ((counted_download render accept_all (pos 5) reads).1.file ≡ lit "abcde")
    × ((counted_download render accept_all (pos 5) reads).1.counter.received ≡ 5)
unfolding counted_download copy_counted tee_write write update close_bar close_counter closing
    new_write_counter new_progress brought lit
counted_download-copied_example = counted_download-copied render accept_all (pos 5) reads refl

counted_download-IsCounted_example : IsCounted (counted_download render accept_all (pos 5) reads)
counted_download-IsCounted_example = counted_download-IsCounted render accept_all (pos 5) reads
