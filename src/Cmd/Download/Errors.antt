-- ===== src/Cmd/Download/Errors.antt =====
-- Rules for what holds behind an error.
use mathlib.Core.Path.{subst}
use webboot.Prelude.{Str, ◌≡◌, refl, sym}
use webboot.Exec.{Error, Res, ok, err, blocked, panicked, exited, Exec, proceed}
use webboot.Os.{Call, call, defer, ignore_error, returned, leave, dropped}
use webboot.Cmd.App.{Env, App}
use webboot.Cmd.Download.{sys}
use webboot.Cmd.Download.Disk.{ignored-world}

-- A property of the state behind an error, and one for each of success and error.
abbrev pub Fails : {S A : Type 0} → (S → Type 0) → Res A × S → Type 0
Fails R (err e, s) = R s
Fails R _ = Unit

abbrev pub Both : {S A : Type 0} → (A → S → Type 0) → (S → Type 0) → Res A × S → Type 0
Both P R (ok a, s) = P a s
Both P R (err e, s) = R s
Both P R _ = Unit

module _ {S A B : Type 0} where
  pub proceed-Fails :
      (P : A → S → Type 0) (R : S → Type 0) (p : Res A × S) (f : A → Exec S B)
      → Both P R p
      → ((a : A) (s : S) → P a s → Fails R (f a s))
      → Fails R (proceed p f)
  proceed-Fails P R (ok a, s) f b h = h a s b
  proceed-Fails P R (err e, s) f b h = b
  proceed-Fails P R (blocked, s) f b h = tt
  proceed-Fails P R (panicked, s) f b h = tt
  proceed-Fails P R (exited n, s) f b h = tt

module _ {S A : Type 0} where
  Both-pair :
      (P : A → S → Type 0) (R : S → Type 0) (r : Res A) (s : S)
      → ((a : A) → r ≡ ok a → P a s)
      → ((e : Error) → r ≡ err e → R s)
      → Both P R (r, s)
  Both-pair P R (ok a) s h k = h a refl
  Both-pair P R (err e) s h k = k e refl
  Both-pair P R blocked s h k = tt
  Both-pair P R panicked s h k = tt
  Both-pair P R (exited n) s h k = tt

  returned-Fails :
      (R : S → Type 0) (r : Res A) (c : Res (Unit {0})) (s : S)
      → Fails R (r, s)
      → Fails R (returned r c, s)
  returned-Fails R r (ok u) s h = h
  returned-Fails R r (err e) s h = h
  returned-Fails R r blocked s h = tt
  returned-Fails R r panicked s h = tt
  returned-Fails R r (exited n) s h = tt

module _ {S : Type 0} where
  -- A call whose error is ignored, before another error is returned.
  pub dropped-Fails :
      (R : S → Type 0) (e : Error) (r : Res Str) (s : S)
      → ((a : Str) → r ≡ ok a → R s)
      → ((x : Error) → r ≡ err x → R s)
      → Fails R (proceed {B = Unit {0}} (dropped (r, s)) (λ _ t. (err e, t)))
  dropped-Fails R e (ok a) s h k = h a refl
  dropped-Fails R e (err x) s h k = k x refl
  dropped-Fails R e blocked s h k = tt
  dropped-Fails R e panicked s h k = tt
  dropped-Fails R e (exited n) s h k = tt

module _ {W : Type 0} (env : Env W) where
  pub sys-Both :
      (P : Str → W → Type 0) (R : W → Type 0) (c : Call) (s : App W)
      → ((r : Str) → (env.machine c s.os.world).0 ≡ ok r → P r (env.machine c s.os.world).1)
      → ((e : Error) → (env.machine c s.os.world).0 ≡ err e → R (env.machine c s.os.world).1)
      → Both (λ r t. P r t.os.world) (λ t. R t.os.world) (sys env c s)
  unfolding sys call
  sys-Both P R c s h k =
      Both-pair (λ r t. P r t.os.world) (λ t. R t.os.world) (env.machine c s.os.world).0
        (sys env c s).1 h k

  leave-Fails :
      {A : Type 0} (R : W → Type 0) (c : Call) (p : Res A × App W)
      → ((w : W) → R w → R (env.machine c w).1)
      → Fails (λ t. R t.os.world) p
      → Fails (λ t. R t.os.world) (leave (ignore_error (sys env c)) p)
  leave-Fails R c (ok a, s) k h =
      returned-Fails (λ t. R t.os.world) (ok a) (ignore_error (sys env c) s).0
        (ignore_error (sys env c) s).1 tt
  leave-Fails R c (err e, s) k h =
      returned-Fails (λ t. R t.os.world) (err e) (ignore_error (sys env c) s).0
        (ignore_error (sys env c) s).1 (subst R (sym (ignored-world env c s)) (k s.os.world h))
  leave-Fails R c (blocked, s) k h = tt
  leave-Fails R c (panicked, s) k h =
      returned-Fails (λ t. R t.os.world) panicked (ignore_error (sys env c) s).0
        (ignore_error (sys env c) s).1 tt
  leave-Fails R c (exited n, s) k h = tt

  pub deferred-Fails :
      {A : Type 0} (R : W → Type 0) (c : Call) (body : Exec (App W) A) (s : App W)
      → ((w : W) → R w → R (env.machine c w).1)
      → Fails (λ t. R t.os.world) (body s)
      → Fails (λ t. R t.os.world) (defer (ignore_error (sys env c)) body s)
  unfolding defer
  deferred-Fails R c body s k h = leave-Fails R c (body s) k h
