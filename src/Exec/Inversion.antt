-- ===== src/Exec/Inversion.antt =====
-- What an action that succeeded went through.
use mathlib.Core.Path.{subst}
use webboot.Prelude.{◌≡◌, refl, ap}
use webboot.Exec.{Res, ok, err, blocked, panicked, exited, Exec, proceed}

-- The value, where there is one.
abbrev pub HasValue : {A : Type 0} → Res A → Type 0
HasValue (ok a) = Unit
HasValue _ = ⊥

pub value : {A : Type 0} {r : Res A} {a : A} → r ≡ ok a → HasValue r
value h = rw h tt

abbrev value_or : {A : Type 0} → A → Res A → A
value_or a (ok b) = b
value_or a _ = a

pub ok-injective : {A : Type 0} {a b : A} → ok a ≡ ok b → a ≡ b
ok-injective {a} h = ap (value_or a) h

module _ {S A B : Type 0} where
  -- A chain that succeeds has a first step that succeeds.
  pub proceed-ok :
      (p : Res A × S) (f : A → Exec S B) {b : B}
      → (proceed p f).0 ≡ ok b
      → (a : A) × (s : S) × (p ≡ (ok a, s)) × ((f a s).0 ≡ ok b)
  proceed-ok (ok a, s) f h = (a, s, refl, h)
  proceed-ok (err e, s) f h = absurd (value h)
  proceed-ok (blocked, s) f h = absurd (value h)
  proceed-ok (panicked, s) f h = absurd (value h)
  proceed-ok (exited n, s) f h = absurd (value h)

  pub proceed-eq :
      (p : Res A × S) (f : A → Exec S B) {b : B} {t : S}
      → proceed p f ≡ (ok b, t)
      → (a : A) × (s : S) × (p ≡ (ok a, s)) × (f a s ≡ (ok b, t))
  proceed-eq (ok a, s) f h = (a, s, refl, h)
  proceed-eq (err e, s) f h = absurd (value (ap (λ p. p.0) h))
  proceed-eq (blocked, s) f h = absurd (value (ap (λ p. p.0) h))
  proceed-eq (panicked, s) f h = absurd (value (ap (λ p. p.0) h))
  proceed-eq (exited n, s) f h = absurd (value (ap (λ p. p.0) h))

-- The value and the state of a success satisfy `Q`.
abbrev pub Post : {S A : Type 0} → (A → S → Type 0) → Res A × S → Type 0
Post Q (ok a, s) = Q a s
Post Q (err e, s) = Unit
Post Q (blocked, s) = Unit
Post Q (panicked, s) = Unit
Post Q (exited n, s) = Unit

module _ {S A B : Type 0} where
  -- The rule of sequences.
  pub proceed-Post :
      (R : A → S → Type 0) (p : Res A × S) (Q : B → S → Type 0) (f : A → Exec S B)
      → Post R p
      → ((a : A) (s : S) → R a s → Post Q (f a s))
      → Post Q (proceed p f)
  proceed-Post R (ok a, s) Q f r h = h a s r
  proceed-Post R (err e, s) Q f r h = tt
  proceed-Post R (blocked, s) Q f r h = tt
  proceed-Post R (panicked, s) Q f r h = tt
  proceed-Post R (exited n, s) Q f r h = tt

module _ {S A : Type 0} where
  pub Post-Anything : (p : Res A × S) → Post (λ _ _. Unit {0}) p
  Post-Anything (ok a, s) = tt
  Post-Anything (err e, s) = tt
  Post-Anything (blocked, s) = tt
  Post-Anything (panicked, s) = tt
  Post-Anything (exited n, s) = tt

  pub Post-eq :
      (Q : A → S → Type 0) {p : Res A × S} {a : A} {s : S} → Post Q p → p ≡ (ok a, s) → Q a s
  Post-eq Q h e = subst (Post Q) e h

  pub Post-ok : (Q : A → Type 0) (p : Res A × S) {a : A} → Post (λ a s. Q a) p → p.0 ≡ ok a → Q a
  Post-ok Q (ok b, s) h e = subst Q (ok-injective e) h
  Post-ok Q (err e', s) h e = absurd (value e)
  Post-ok Q (blocked, s) h e = absurd (value e)
  Post-ok Q (panicked, s) h e = absurd (value e)
  Post-ok Q (exited n, s) h e = absurd (value e)

  pub Post-map :
      (Q R : A → S → Type 0) (p : Res A × S)
      → Post Q p
      → ((a : A) (s : S) → Q a s → R a s)
      → Post R p
  Post-map Q R (ok a, s) h f = f a s h
  Post-map Q R (err e, s) h f = tt
  Post-map Q R (blocked, s) h f = tt
  Post-map Q R (panicked, s) h f = tt
  Post-map Q R (exited n, s) h f = tt

  pub Post-intro :
      (Q : A → Type 0) (p : Res A × S) → ((a : A) → p.0 ≡ ok a → Q a) → Post (λ a s. Q a) p
  Post-intro Q (ok a, s) h = h a refl
  Post-intro Q (err e, s) h = tt
  Post-intro Q (blocked, s) h = tt
  Post-intro Q (panicked, s) h = tt
  Post-intro Q (exited n, s) h = tt

module _ {S A B : Type 0} (Q : B → Type 0) where
  -- A property of the values of the last action, whatever came before.
  pub Post-after :
      (p : Res A × S) (f : A → Exec S B)
      → ((a : A) (s : S) → Post (λ b _. Q b) (f a s))
      → Post (λ b _. Q b) (proceed p f)
  Post-after (ok a, s) f h = h a s
  Post-after (err e, s) f h = tt
  Post-after (blocked, s) f h = tt
  Post-after (panicked, s) f h = tt
  Post-after (exited n, s) f h = tt
