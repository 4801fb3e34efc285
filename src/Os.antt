-- ===== src/Os.antt =====
-- Calls of the operating system, of the loop devices and mounts of u-root, and of programs. What
-- they do is a parameter; the calls made are kept as a trace.
pub mod Traces
pub mod Answers
use webboot.Prelude.{Bool, true, false, Str, List, [], ◌∷◌, ◌++◌, Option}
use webboot.Exec.{Error, Res, ok, err, blocked, panicked, exited, Exec}

-- Files, directories and devices go by name.
pub data Call : Type 0 where
  temp_dir temp_file : Str → Call
  remove remove_all : Str → Call
  open_file create_file open_append : Str → Call
  read_file stat mkdir_all : Str → Call
  copy copy_unzipped : Str → Str → Call
  read_open : Str → Call
  seek_start close sync : Str → Call
  loop_new : Str → Call
  mount_loop mount_iso : Str → Str → Call
  unmount force_unmount : Str → Call
  run_program : List Str → Call
  run_in : Str → List Str → Call
  getwd : Call
  look_path : Str → Call
  load_linux : Option Str → Option Str → Str → Call
  kexec_reboot : Call
  http_get : Str → Call

-- What a call returns: the name of a new file or directory, a text, or nothing of interest.
abbrev pub Machine : Type 0 → Type 0
Machine W = Call → W → Res Str × W

pub record Os (W : Type 0) : Type 0 where
  pub world : W
  pub trace : List Call

module _ {W : Type 0} (machine : Machine W) where
  unfoldable pub call : Call → Exec (Os W) Str
  call c s = let (r, w) = machine c s.world in (r, record { world = w; trace = s.trace ++ c ∷ [] })

-- The result of a function whose deferred call ended like this.
abbrev pub returned : {A : Type 0} → Res A → Res (Unit {0}) → Res A
returned r (ok u) = r
returned r (err e) = r
returned r blocked = blocked
returned r panicked = panicked
returned r (exited n) = exited n

module _ {S A : Type 0} where
  abbrev pub leave : Exec S (Unit {0}) → Res A × S → Res A × S
  leave cleanup (ok a, s) = let (c, s') = cleanup s in (returned (ok a) c, s')
  leave cleanup (err e, s) = let (c, s') = cleanup s in (returned (err e) c, s')
  leave cleanup (panicked, s) = let (c, s') = cleanup s in (returned panicked c, s')
  leave cleanup (blocked, s) = (blocked, s)
  leave cleanup (exited n, s) = (exited n, s)

  -- `defer cleanup()`, for the rest of the function. Its error is dropped.
  unfoldable pub defer : Exec S (Unit {0}) → Exec S A → Exec S A
  defer cleanup body s = leave cleanup (body s)

module _ {S A : Type 0} where
  abbrev pub relabelled : (Error → Error) → Res A × S → Res A × S
  relabelled f (ok a, s) = (ok a, s)
  relabelled f (err e, s) = (err (f e), s)
  relabelled f (blocked, s) = (blocked, s)
  relabelled f (panicked, s) = (panicked, s)
  relabelled f (exited n, s) = (exited n, s)

  -- `if err != nil { return fmt.Errorf(…, err) }`.
  unfoldable pub wrap_error : (Error → Error) → Exec S A → Exec S A
  wrap_error f m s = relabelled f (m s)

  abbrev pub dropped : Res A × S → Res (Unit {0}) × S
  dropped (ok a, s) = (ok tt, s)
  dropped (err e, s) = (ok tt, s)
  dropped (blocked, s) = (blocked, s)
  dropped (panicked, s) = (panicked, s)
  dropped (exited n, s) = (exited n, s)

  -- A call whose error is logged or ignored.
  unfoldable pub ignore_error : Exec S A → Exec S (Unit {0})
  ignore_error m s = dropped (m s)

  abbrev pub fatal : Res A × S → Res (Unit {0}) × S
  fatal (ok a, s) = (ok tt, s)
  fatal (err e, s) = (exited 1, s)
  fatal (blocked, s) = (blocked, s)
  fatal (panicked, s) = (panicked, s)
  fatal (exited n, s) = (exited n, s)

  abbrev pub value_or_exit : Res A × S → Res A × S
  value_or_exit (ok a, s) = (ok a, s)
  value_or_exit (err e, s) = (exited 1, s)
  value_or_exit (blocked, s) = (blocked, s)
  value_or_exit (panicked, s) = (panicked, s)
  value_or_exit (exited n, s) = (exited n, s)

  -- A call whose value is used, and whose error goes to `log.Fatal`.
  unfoldable pub must : Exec S A → Exec S A
  must m s = value_or_exit (m s)

  abbrev pub success : Res A × S → Res Bool × S
  success (ok a, s) = (ok true, s)
  success (err e, s) = (ok false, s)
  success (blocked, s) = (blocked, s)
  success (panicked, s) = (panicked, s)
  success (exited n, s) = (exited n, s)

  -- Whether a call gives no error.
  unfoldable pub succeeds : Exec S A → Exec S Bool
  succeeds m s = success (m s)

  -- A call whose error goes to `log.Fatal`.
  unfoldable pub or_fatal : Exec S A → Exec S (Unit {0})
  or_fatal m s = fatal (m s)
