-- ===== src/FilePath/Elements.antt =====
-- The elements of a path, and the elements that are left when it is resolved.
use mathlib.Core.List.{reverse, reverse-cons}
use webboot.Prelude.{
  ℕ, Bool, true, false, Str, lit, text_eq, is_empty, split, cons_head, List, [], ◌∷◌, ◌++◌, ◌||◌,
  ◌==◌, ◌≡◌, refl, ap, ◌∙◌, Bool-cases, inl, inr,
}
use webboot.FilePath.{push, pop, resolve}

abbrev pub NoSlash : Str → Type 0
NoSlash [] = Unit
NoSlash (x ∷ s) = ((x == 47) ≡ false) × NoSlash s

abbrev IsFull : List Str → Type 0
IsFull [] = ⊥
IsFull (p ∷ ps) = Unit

abbrev pub AllPlain : List Str → Type 0
AllPlain [] = Unit
AllPlain (p ∷ ps) = NoSlash p × AllPlain ps

cons_head-AllPlain :
    (x : ℕ) (l : List Str) → (x == 47) ≡ false → AllPlain l → AllPlain (cons_head x l)
cons_head-AllPlain x [] n h = ((n, tt), tt)
cons_head-AllPlain x (p ∷ ps) n h = ((n, h.0), h.1)

pub split-AllPlain : (s : Str) → AllPlain (split 47 s)
unfolding split
split-AllPlain [] = (tt, tt)
split-AllPlain (x ∷ s) = elim (Bool-cases (x == 47)) [
  | inl y ↦ rw (y, split) (tt, split-AllPlain s)
  | inr n ↦ rw (n, split) (cons_head-AllPlain x (split 47 s) n (split-AllPlain s))
]

cons_head-IsFull : (x : ℕ) (l : List Str) → IsFull (cons_head x l)
cons_head-IsFull x [] = tt
cons_head-IsFull x (p ∷ ps) = tt

split-IsFull : (s : Str) → IsFull (split 47 s)
unfolding split
split-IsFull [] = tt
split-IsFull (x ∷ s) = elim (Bool-cases (x == 47)) [
  | inl y ↦ rw (y, split) tt
  | inr n ↦ rw (n, split) (cons_head-IsFull x (split 47 s))
]

cons_head_append : (x : ℕ) (l m : List Str) → IsFull l → cons_head x (l ++ m) ≡ cons_head x l ++ m
cons_head_append x [] m h = absurd h
cons_head_append x (p ∷ ps) m h = refl

pub split_append : (a b : Str) → split 47 (a ++ 47 ∷ b) ≡ split 47 a ++ split 47 b
unfolding split
split_append [] b = refl
split_append (x ∷ a) b = elim (Bool-cases (x == 47)) [
  | inl y ↦ rw (y, split) (ap (◌∷◌ []) (split_append a b))
  | inr n ↦
      rw (n, split)
        (ap (cons_head x) (split_append a b)
          ∙ cons_head_append x (split 47 a) (split 47 b) (split-IsFull a))
]

pub split_one : (s : Str) → NoSlash s → split 47 s ≡ s ∷ []
unfolding split
split_one [] h = refl
split_one (x ∷ s) h = rw (h.0, split_one s h.1) refl

pub resolve_append :
    (r : Bool) (out a b : List Str) → resolve r out (a ++ b) ≡ resolve r (resolve r out a) b
unfolding resolve
resolve_append r out [] b = refl
resolve_append r out (e ∷ a) b = resolve_append r (push r out e) a b

-- Elements that stay as they are when they are resolved again, the last one first.
abbrev pub Resolved : Bool → List Str → Type 0
Resolved r [] = Unit
Resolved r (e ∷ out) = (push r out e ≡ e ∷ out) × NoSlash e × (is_empty e ≡ false) × Resolved r out

pub resolve-reverse :
    (r : Bool) (out : List Str) → Resolved r out → resolve r [] (reverse out) ≡ out
unfolding resolve
resolve-reverse r [] h = refl
resolve-reverse r (e ∷ out) (p, n, f, h) =
    ap (resolve r []) (reverse-cons e out)
    ∙ resolve_append r [] (reverse out) (e ∷ [])
    ∙ ap (λ o. push r o e) (resolve-reverse r out h)
    ∙ p

pop-Resolved : (r : Bool) (out : List Str) → Resolved r out → Resolved r (pop r out)
unfolding pop push text_eq lit
pop-Resolved true [] h = tt
pop-Resolved false [] h = (refl, (refl, (refl, tt)), refl, tt)
pop-Resolved r (e ∷ out) h = elim (Bool-cases (text_eq e (lit ".."))) [
  | inl y ↦ rw (y, pop) (rw y refl, (refl, (refl, tt)), refl, h)
  | inr n ↦ rw (n, pop) h.3
]

or-false : (a b : Bool) → a || b ≡ false → a ≡ false
or-false true b h = h
or-false false b h = refl

push-Resolved :
    (r : Bool) (out : List Str) (e : Str) → NoSlash e → Resolved r out → Resolved r (push r out e)
unfolding push
push-Resolved r out e n h = elim (Bool-cases (is_empty e || text_eq e (lit "."))) [
  | inl y ↦ rw (y, push) h
  | inr no_dot ↦ elim (Bool-cases (text_eq e (lit ".."))) [
    | inl y ↦ rw (no_dot, y, push) (pop-Resolved r out h)
    | inr m ↦ rw (no_dot, m, push) (rw (no_dot, m) refl, n, or-false _ _ no_dot, h)
  ]
]

pub resolve-Resolved :
    (r : Bool) (out es : List Str) → AllPlain es → Resolved r out → Resolved r (resolve r out es)
unfolding resolve
resolve-Resolved r out [] n h = h
resolve-Resolved r out (e ∷ es) n h =
    resolve-Resolved r (push r out e) es n.1 (push-Resolved r out e n.0 h)
