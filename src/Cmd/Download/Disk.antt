-- ===== src/Cmd/Download/Disk.antt =====
-- Rules for the calls of `download`, and what the system does with files.
use mathlib.Core.Path.{subst}
use webboot.Prelude.{Str, [], ◌++◌, Option, none, some, ◌≡◌, ◌≢◌, refl, sym, ap}
use webboot.Exec.{Error, Res, ok, err, blocked, panicked, exited, Exec, proceed, fail}
use webboot.Exec.Inversion.{Post}
use webboot.Os.{
  Call, http_get, temp_file, remove, remove_all, copy, seek_start, create_file, close, Machine,
  call, defer, ignore_error, returned, leave,
}
use webboot.Os.Traces.{ignore_error-state}
use webboot.Cmd.App.{Env, App}
use webboot.Cmd.Download.{sys, or_removed}

-- What the system does with files: what a name holds, and what is left to read of an open file or
-- a response.
pub record Disk {W : Type 0} (machine : Machine W) (content left : W → Str → Option Str)
    : Type 0 where
  -- A new temporary file is empty, and nothing else is read.
  pub made :
      (pattern n : Str) (w : W) {f : Str}
      → (machine (temp_file pattern) w).0 ≡ ok f
      → (content (machine (temp_file pattern) w).1 f ≡ some [])
        × (f ≢ n → left (machine (temp_file pattern) w).1 n ≡ left w n)
  -- A copy puts what is left to read behind what is there.
  pub copied :
      (to from : Str) (w : W) {r old new : Str}
      → (machine (copy to from) w).0 ≡ ok r
      → content w to ≡ some old
      → left w from ≡ some new
      → content (machine (copy to from) w).1 to ≡ some (old ++ new)
  pub rewound :
      (f : Str) (w : W) {r : Str}
      → (machine (seek_start f) w).0 ≡ ok r
      → left (machine (seek_start f) w).1 f ≡ content w f
  -- A created file is empty, and nothing else is read.
  pub created :
      (f n : Str) (w : W) {r : Str}
      → (machine (create_file f) w).0 ≡ ok r
      → (content (machine (create_file f) w).1 f ≡ some [])
        × (n ≢ f → left (machine (create_file f) w).1 n ≡ left w n)
  pub closed : (f n : Str) (w : W) → content (machine (close f) w).1 n ≡ content w n
  pub removed : (f n : Str) (w : W) → f ≢ n → content (machine (remove f) w).1 n ≡ content w n

-- What the calls of `download` do not do to files.
pub record Frame {W : Type 0} (machine : Machine W) (content : W → Str → Option Str) : Type 0 where
  pub fetched : (url n : Str) (w : W) → content (machine (http_get url) w).1 n ≡ content w n
  pub made :
      (pattern n : Str) (w : W)
      → ((f : Str) → (machine (temp_file pattern) w).0 ≡ ok f → f ≢ n)
      → content (machine (temp_file pattern) w).1 n ≡ content w n
  pub copied :
      (to from n : Str) (w : W) → to ≢ n → content (machine (copy to from) w).1 n ≡ content w n
  pub rewound : (f n : Str) (w : W) → content (machine (seek_start f) w).1 n ≡ content w n
  -- A file that cannot be created is left as it is.
  pub refused :
      (f : Str) (w : W) {e : Error}
      → (machine (create_file f) w).0 ≡ err e
      → content (machine (create_file f) w).1 f ≡ content w f
  pub closed : (f n : Str) (w : W) → content (machine (close f) w).1 n ≡ content w n
  pub removed : (f n : Str) (w : W) → f ≢ n → content (machine (remove f) w).1 n ≡ content w n
  -- `os.RemoveAll` without an error.
  pub gone :
      (f : Str) (w : W) {r : Str}
      → (machine (remove_all f) w).0 ≡ ok r
      → content (machine (remove_all f) w).1 f ≡ none

module _ {S A : Type 0} where
  Post-pair :
      (Q : A → S → Type 0) (r : Res A) (s : S) → ((a : A) → r ≡ ok a → Q a s) → Post Q (r, s)
  Post-pair Q (ok a) s h = h a refl
  Post-pair Q (err e) s h = tt
  Post-pair Q blocked s h = tt
  Post-pair Q panicked s h = tt
  Post-pair Q (exited n) s h = tt

  unreturned-Post :
      (Q : A → S → Type 0) (r : Res A) (c : Res (Unit {0})) (s : S)
      → Post Q (r, s)
      → Post Q (returned r c, s)
  unreturned-Post Q r (ok u) s h = h
  unreturned-Post Q r (err e) s h = h
  unreturned-Post Q r blocked s h = tt
  unreturned-Post Q r panicked s h = tt
  unreturned-Post Q r (exited n) s h = tt

module _ {W : Type 0} (env : Env W) where
  pub sys-Post :
      (Q : Str → W → Type 0) (c : Call) (s : App W)
      → ((r : Str) → (env.machine c s.os.world).0 ≡ ok r → Q r (env.machine c s.os.world).1)
      → Post (λ r t. Q r t.os.world) (sys env c s)
  unfolding sys call
  sys-Post Q c s h =
      Post-pair (λ r t. Q r t.os.world) (env.machine c s.os.world).0 (sys env c s).1 h

  pub ignored-world :
      (c : Call) (s : App W)
      → (ignore_error (sys env c) s).1.os.world ≡ (env.machine c s.os.world).1
  unfolding ignore_error sys call
  ignored-world c s = ap (λ (t : App W). t.os.world) (ignore_error-state (sys env c) s)

  leave-Post :
      {A : Type 0} (Q : W → Type 0) (c : Call) (p : Res A × App W)
      → ((w : W) → Q w → Q (env.machine c w).1)
      → Post (λ _ t. Q t.os.world) p
      → Post (λ _ t. Q t.os.world) (leave (ignore_error (sys env c)) p)
  leave-Post Q c (ok a, s) k h =
      unreturned-Post (λ _ t. Q t.os.world) (ok a) (ignore_error (sys env c) s).0
        (ignore_error (sys env c) s).1 (subst Q (sym (ignored-world c s)) (k s.os.world h))
  leave-Post Q c (err e, s) k h =
      unreturned-Post (λ _ t. Q t.os.world) (err e) (ignore_error (sys env c) s).0
        (ignore_error (sys env c) s).1 tt
  leave-Post Q c (blocked, s) k h = tt
  leave-Post Q c (panicked, s) k h =
      unreturned-Post (λ _ t. Q t.os.world) panicked (ignore_error (sys env c) s).0
        (ignore_error (sys env c) s).1 tt
  leave-Post Q c (exited n, s) k h = tt

  -- A deferred call that keeps a property of the world.
  pub deferred-Post :
      {A : Type 0} (Q : W → Type 0) (c : Call) (body : Exec (App W) A) (s : App W)
      → ((w : W) → Q w → Q (env.machine c w).1)
      → Post (λ _ t. Q t.os.world) (body s)
      → Post (λ _ t. Q t.os.world) (defer (ignore_error (sys env c)) body s)
  unfolding defer
  deferred-Post Q c body s k h = leave-Post Q c (body s) k h

  failing-Post :
      {A : Type 0} (Q : W → Type 0) (e : Error) (p : Res A × App W)
      → Post (λ (_ : Unit {0}) t. Q t.os.world) (proceed p (λ _. fail e))
  failing-Post Q e (ok a, s) = tt
  failing-Post Q e (err f, s) = tt
  failing-Post Q e (blocked, s) = tt
  failing-Post Q e (panicked, s) = tt
  failing-Post Q e (exited n, s) = tt

  pub or_removed-Post :
      (Q : W → Type 0) (path : Str) (p : Res Str × App W)
      → Post (λ _ t. Q t.os.world) p
      → Post (λ _ t. Q t.os.world) (or_removed env path p)
  or_removed-Post Q path (ok a, s) h = h
  or_removed-Post Q path (err e, s) h =
      failing-Post Q e (ignore_error (sys env (remove_all path)) s)
  or_removed-Post Q path (blocked, s) h = tt
  or_removed-Post Q path (panicked, s) h = tt
  or_removed-Post Q path (exited n, s) h = tt
