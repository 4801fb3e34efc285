-- ===== src/Os/Traces.antt =====
-- The traces of calls, and of deferred calls.
use webboot.Prelude.{List, [], ◌∷◌, ◌++◌, ◌≡◌, refl, ap, ◌∙◌}
use webboot.Exec.{Error, Res, ok, err, blocked, panicked, exited, Exec}
use webboot.Exec.Inversion.{value}
use webboot.Os.{
  Call, Machine, Os, call, returned, leave, defer, wrap_error, relabelled, ignore_error, dropped,
  or_fatal, fatal, must, value_or_exit,
}

-- The function has returned or panicked: it neither waits for ever nor has it ended the process.
abbrev pub IsSettled : {A : Type 0} → Res A → Type 0
IsSettled (ok a) = Unit
IsSettled (err e) = Unit
IsSettled blocked = ⊥
IsSettled panicked = Unit
IsSettled (exited n) = ⊥

-- The last calls that were made.
abbrev pub EndsWith : List Call → List Call → Type 0
EndsWith calls trace = (before : List Call) × (trace ≡ before ++ calls)

returned-ok : {A : Type 0} (r : Res A) (c : Res (Unit {0})) {a : A} → returned r c ≡ ok a → r ≡ ok a
returned-ok r (ok u) h = h
returned-ok r (err e) h = h
returned-ok r blocked h = absurd (value h)
returned-ok r panicked h = absurd (value h)
returned-ok r (exited n) h = absurd (value h)

module _ {S A : Type 0} where
  dropped-state : (p : Res A × S) → (dropped p).1 ≡ p.1
  dropped-state (ok a, s) = refl
  dropped-state (err e, s) = refl
  dropped-state (blocked, s) = refl
  dropped-state (panicked, s) = refl
  dropped-state (exited n, s) = refl

  pub ignore_error-state : (m : Exec S A) (s : S) → (ignore_error m s).1 ≡ (m s).1
  unfolding ignore_error
  ignore_error-state m s = dropped-state (m s)

  fatal-state : (p : Res A × S) → (fatal p).1 ≡ p.1
  fatal-state (ok a, s) = refl
  fatal-state (err e, s) = refl
  fatal-state (blocked, s) = refl
  fatal-state (panicked, s) = refl
  fatal-state (exited n, s) = refl

  pub or_fatal-state : (m : Exec S A) (s : S) → (or_fatal m s).1 ≡ (m s).1
  unfolding or_fatal
  or_fatal-state m s = fatal-state (m s)

  exit-state : (p : Res A × S) → (value_or_exit p).1 ≡ p.1
  exit-state (ok a, s) = refl
  exit-state (err e, s) = refl
  exit-state (blocked, s) = refl
  exit-state (panicked, s) = refl
  exit-state (exited n, s) = refl

  pub must-state : (m : Exec S A) (s : S) → (must m s).1 ≡ (m s).1
  unfolding must
  must-state m s = exit-state (m s)

  -- After a deferred call the state is the one that it leaves.
  leave-state :
      (cleanup : Exec S (Unit {0})) (p : Res A × S)
      → IsSettled (leave cleanup p).0
      → (leave cleanup p).1 ≡ (cleanup p.1).1
  leave-state cleanup (ok a, s) h = refl
  leave-state cleanup (err e, s) h = refl
  leave-state cleanup (panicked, s) h = refl
  leave-state cleanup (blocked, s) h = absurd h
  leave-state cleanup (exited n, s) h = absurd h

  pub defer-state :
      (cleanup : Exec S (Unit {0})) (body : Exec S A) (s : S)
      → IsSettled (defer cleanup body s).0
      → (defer cleanup body s).1 ≡ (cleanup (body s).1).1
  unfolding defer
  defer-state cleanup body s h = leave-state cleanup (body s) h

  leave-IsSettled :
      (cleanup : Exec S (Unit {0})) (p : Res A × S) → IsSettled (leave cleanup p).0 → IsSettled p.0
  leave-IsSettled cleanup (ok a, s) h = tt
  leave-IsSettled cleanup (err e, s) h = tt
  leave-IsSettled cleanup (panicked, s) h = tt
  leave-IsSettled cleanup (blocked, s) h = h
  leave-IsSettled cleanup (exited n, s) h = h

  pub defer-IsSettled :
      (cleanup : Exec S (Unit {0})) (body : Exec S A) (s : S)
      → IsSettled (defer cleanup body s).0
      → IsSettled (body s).0
  unfolding defer
  defer-IsSettled cleanup body s h = leave-IsSettled cleanup (body s) h

  leave-ok :
      (cleanup : Exec S (Unit {0})) (p : Res A × S) {a : A}
      → (leave cleanup p).0 ≡ ok a
      → p.0 ≡ ok a
  leave-ok cleanup (ok b, s) h = returned-ok (ok b) (cleanup s).0 h
  leave-ok cleanup (err e, s) h = returned-ok (err e) (cleanup s).0 h
  leave-ok cleanup (blocked, s) h = h
  leave-ok cleanup (panicked, s) h = returned-ok panicked (cleanup s).0 h
  leave-ok cleanup (exited n, s) h = h

  pub defer-ok :
      (cleanup : Exec S (Unit {0})) (body : Exec S A) (s : S) {a : A}
      → (defer cleanup body s).0 ≡ ok a
      → (body s).0 ≡ ok a
  unfolding defer
  defer-ok cleanup body s h = leave-ok cleanup (body s) h

  wrap_error-ok :
      (f : Error → Error) (p : Res A × S) {a : A} {s : S}
      → p ≡ (ok a, s)
      → relabelled f p ≡ (ok a, s)
  wrap_error-ok f p h = ap (relabelled f) h

  pub wrap-ok :
      (f : Error → Error) (m : Exec S A) (s : S) {a : A} {t : S}
      → m s ≡ (ok a, t)
      → wrap_error f m s ≡ (ok a, t)
  unfolding wrap_error
  wrap-ok f m s h = wrap_error-ok f (m s) h

module _ {W : Type 0} (machine : Machine W) where
  pub call-trace : (c : Call) (s : Os W) → (call machine c s).1.trace ≡ s.trace ++ c ∷ []
  unfolding call
  call-trace c s = refl

  pub ignored-trace :
      (c : Call) (s : Os W) → (ignore_error (call machine c) s).1.trace ≡ s.trace ++ c ∷ []
  ignored-trace c s =
      ap (λ (t : Os W). t.trace) (ignore_error-state (call machine c) s) ∙ call-trace c s
