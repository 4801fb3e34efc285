-- ===== src/Exec.antt =====
-- Results of Go functions that return an error, may panic or may wait for ever, and actions that
-- pass a state along. What was written before an error stays written.
pub mod Inversion
use webboot.Prelude.{ℕ, Str, lit}

-- `menu.BackRequest`, `menu.ExitRequest` and `context.Canceled` are compared by identity; any other
-- error is known by its text.
pub data Error : Type 0 where
  back_request exit_request canceled : Error
  other : Str → Error

-- `err.Error()`.
unfoldable pub message : Error → Str
message back_request = lit "User requested to return to a previous menu."
message exit_request = lit "User requested to exit the program."
message canceled = lit "context canceled"
message (other m) = m

-- The user asked to go back or to leave.
abbrev pub IsRequest : Error → Type 0
IsRequest back_request = Unit
IsRequest exit_request = Unit
IsRequest canceled = ⊥
IsRequest (other m) = ⊥

-- `blocked` waits for an event that never comes; `panicked` is a Go run-time panic;
-- `exited` ends the process with a status.
pub data Res (A : Type 0) : Type 0 where
  ok : A → Res A
  err : Error → Res A
  blocked : Res A
  panicked : Res A
  exited : ℕ → Res A

unfoldable pub map_res : {A B : Type 0} → (A → B) → Res A → Res B
map_res f (ok a) = ok (f a)
map_res f (err e) = err e
map_res f blocked = blocked
map_res f panicked = panicked
map_res f (exited n) = exited n

abbrev pub Exec : Type 0 → Type 0 → Type 0
Exec S A = S → Res A × S

module _ {S A : Type 0} where
  abbrev pub pure : A → Exec S A
  pure a s = (ok a, s)

  abbrev pub fail : Error → Exec S A
  fail e s = (err e, s)

module _ {S A B : Type 0} where
  abbrev pub proceed : Res A × S → (A → Exec S B) → Res B × S
  proceed (ok a, s) f = f a s
  proceed (err e, s) f = (err e, s)
  proceed (blocked, s) f = (blocked, s)
  proceed (panicked, s) f = (panicked, s)
  proceed (exited n, s) f = (exited n, s)

  infixl 5 ◌>>=◌ ◌>>◌
  abbrev pub ◌>>=◌ : Exec S A → (A → Exec S B) → Exec S B
  ◌>>=◌ m f s = proceed (m s) f

  abbrev pub ◌>>◌ : Exec S A → Exec S B → Exec S B
  m >> k = m >>= λ _. k
