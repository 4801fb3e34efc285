-- ===== src/Cmd/Counter.antt =====
-- cmds/webboot/utils.go: `WriteCounter`, and the copy of a response through `io.TeeReader`, read by
-- read. The counts are float64, which holds them exactly below 2^53 bytes; the text that `Sprintf`
-- makes of them is a parameter.
pub mod Totals
pub mod Bar
use webboot.Prelude.{
  ℕ, zero, suc, false, ◌+◌, ℤ, Str, lit, List, [], ◌∷◌, ◌++◌, Option, none, some, take, length,
  ◌==◌, if◌then◌else◌,
}
use webboot.Exec.{Error, other}
use webboot.Menu.Progress.{Progress, free, closed, new_progress}

-- `expected` is the length that the response claims, -1 if it claims none.
pub record WriteCounter : Type 0 where
  pub received : ℕ
  pub expected : ℤ
  pub progress : Progress

unfoldable pub new_write_counter : ℤ → WriteCounter
unfolding new_progress
new_write_counter size = record { received = 0; expected = size; progress = new_progress [] false }

-- `Progress.Update`, when no animation runs.
unfoldable pub update : Str → Progress → Progress
update text p = record p { text = text; screen = some text; holder = free }

-- `Progress.Close`, when no animation runs.
unfoldable pub close_bar : Progress → Progress
close_bar p = record p { screen = none; holder = closed }

-- How a `Read` ends: with more to come, at the end, or with an error.
pub data End : Type 0 where
  going eof : End
  failed : Error → End

pub record Read : Type 0 where
  pub bytes : Str
  pub end : End

-- How a copy ends; `waiting` is a read that does not return.
pub data Outcome : Type 0 where
  copied waiting : Outcome
  stopped : Error → Outcome

-- The state of the copy: what the file has, and the counter.
pub record Copy : Type 0 where
  pub file : Str
  pub counter : WriteCounter

-- `WriteCounter.Close`.
unfoldable pub close_counter : WriteCounter → WriteCounter
unfolding close_bar
close_counter wc = record wc { progress = close_bar wc.progress }

-- `io.Copy` does not go on behind a write that took another number of bytes.
abbrev pub checked : Str → ℕ → Option Error → Option Error
checked p n (some e) = some e
checked p n none = if n == length p then none else some (other (lit "short write"))

abbrev pub ended : End → Copy → (Copy → Outcome × Copy) → Outcome × Copy
ended going s rest = rest s
ended eof s rest = (copied, s)
ended (failed e) s rest = (stopped e, s)

abbrev pub written : Option Error × Copy → End → (Copy → Outcome × Copy) → Outcome × Copy
written (none, s) end rest = ended end s rest
written (some e, s) end rest = (stopped e, s)

-- `counter.Close()`, whether or not the copy has failed.
unfoldable pub closing : Outcome × Copy → Outcome × Copy
unfolding close_counter
closing (waiting, s) = (waiting, s)
closing (copied, s) = (copied, record s { counter = close_counter s.counter })
closing (stopped e, s) = (stopped e, record s { counter = close_counter s.counter })

module _ (render : ℕ → ℤ → Str) where
  -- `WriteCounter.Write`.
  unfoldable pub write : Str → WriteCounter → ℕ × WriteCounter
  unfolding update
  write p wc =
      let received = wc.received + length p in
      (
        length p,
        record wc {
          received = received;
          progress = update (render received wc.expected) wc.progress;
        },
      )

  -- How many bytes a `Write` of the file takes, and its error.
  module _ (accept : Str → Str → ℕ × Option Error) where
    -- `TeeReader.Read` writes what it read to the counter, and the copy then to the file.
    unfoldable pub tee_write : Str → Copy → Option Error × Copy
    unfolding write
    tee_write [] s = (none, s)
    tee_write (c ∷ p) s =
        let (n, e) = accept s.file (c ∷ p) in
        (
          checked (c ∷ p) n e,
          record { file = s.file ++ take n (c ∷ p); counter = (write (c ∷ p) s.counter).1 },
        )

    -- `io.Copy(tempFile, io.TeeReader(resp.Body, &counter))`.
    unfoldable pub copy_counted : List Read → Copy → Outcome × Copy
    unfolding tee_write
    copy_counted [] s = (waiting, s)
    copy_counted (r ∷ rs) s = written (tee_write r.bytes s) r.end (λ t. copy_counted rs t)

    -- The copy for a response, and what `download` does behind it with the counter.
    unfoldable pub counted_download : ℤ → List Read → Outcome × Copy
    unfolding copy_counted new_write_counter
    counted_download size rs =
        closing (copy_counted rs (record { file = []; counter = new_write_counter size }))
