-- ===== src/Os/Answers.antt =====
-- Actions whose value and calls are known from what the machine answers.
use webboot.Prelude.{
  Bool, true, false, Str, List, [], ◌∷◌, ◌++◌, append-nil, append_assoc, ◌≡◌, refl, sym, ap, ◌∙◌,
}
use webboot.Exec.{Error, Res, ok, err, Exec, pure, proceed, ◌>>=◌}
use webboot.Os.{Call, Machine, Os, call, must, value_or_exit, succeeds, success}

-- The answer is a value or an error, as the flag says.
abbrev pub Tells : Bool → Res Str → Type 0
Tells true r = (a : Str) × (r ≡ ok a)
Tells false r = (e : Error) × (r ≡ err e)

module _ {W : Type 0} where
  -- From every state the action returns the value and makes the calls.
  abbrev pub Gives : {A : Type 0} → Exec (Os W) A → A → List Call → Type 0
  Gives m a calls = (s : Os W) → (t : Os W) × (m s ≡ (ok a, t)) × (t.trace ≡ s.trace ++ calls)

  pub Gives-pure : {A : Type 0} (a : A) → Gives (pure a) a []
  Gives-pure a s = (s, refl, sym (append-nil s.trace))

  pub Gives-bind :
      {A B : Type 0} (m : Exec (Os W) A) (f : A → Exec (Os W) B) {a : A} {b : B} (c d : List Call)
      → Gives m a c
      → Gives (f a) b d
      → Gives (m >>= f) b (c ++ d)
  Gives-bind m f c d g h s =
      let (t, e, tr) = g s in
      let (u, e', tr') = h t in
      (u, ap (λ p. proceed p f) e ∙ e', tr' ∙ ap (λ l. l ++ d) tr ∙ append_assoc s.trace c d)

  pub Gives-map :
      {A B : Type 0} (m : Exec (Os W) A) (f : A → B) {a : A} {c : List Call}
      → Gives m a c
      → Gives (m >>= λ b. pure (f b)) (f a) c
  Gives-map m f g s = let (t, e, tr) = g s in (t, ap (λ p. proceed p (λ b. pure (f b))) e, tr)

  module _ (machine : Machine W) where
    -- What the call answers does not depend on the state of the machine.
    abbrev pub Answers : Call → Res Str → Type 0
    Answers c r = (w : W) → (machine c w).0 ≡ r

    pub Gives-must :
        {c : Call} {a : Str} → Answers c (ok a) → Gives (must (call machine c)) a (c ∷ [])
    unfolding must call
    Gives-must {c} h s =
        let t = (call machine c s).1 in (t, ap (λ r. value_or_exit (r, t)) (h s.world), refl)

    success-Tells : (b : Bool) (r : Res Str) (t : Os W) → Tells b r → success (r, t) ≡ (ok b, t)
    success-Tells true r t (a, e) = ap (λ r. success (r, t)) e
    success-Tells false r t (e', e) = ap (λ r. success (r, t)) e

    pub Gives-succeeds :
        (b : Bool) (c : Call)
        → ((w : W) → Tells b (machine c w).0)
        → Gives (succeeds (call machine c)) b (c ∷ [])
    unfolding succeeds call
    Gives-succeeds b c h s =
        let t = (call machine c s).1 in (t, success-Tells b _ t (h s.world), refl)
