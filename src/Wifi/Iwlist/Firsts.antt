-- ===== src/Wifi/Iwlist/Firsts.antt =====
-- The first of each name in a list.
use webboot.Prelude.{
  true, false, Str, text_eq_iff, text_eq_refl, List, [], ◌∷◌, ◌≡◌, refl, arith, ◌&&◌, not,
  if◌then◌else◌, Bool-cases, inl, inr,
}
use webboot.Wifi.Iwlist.{contains}

-- The first of each name, in order; `known` are the names already seen.
unfoldable pub firsts : List Str → List Str → List Str
firsts known [] = []
firsts known (e ∷ es) =
    let rest = firsts known es in
    let rest' = e ∷ firsts (e ∷ known) es in if contains e known then rest else rest'

abbrev pub Distinct : List Str → Type 0
Distinct [] = Unit
Distinct (x ∷ xs) = (contains x xs ≡ false) × Distinct xs

-- A name is among the first ones exactly if it is there and not known.
pub contains-firsts :
    (x : Str) (known es : List Str)
    → contains x (firsts known es) ≡ (contains x es && not (contains x known))
unfolding contains firsts
contains-firsts x known [] = refl
contains-firsts x known (e ∷ es) =
    ground (arith, contains-firsts x known es, contains-firsts x (e ∷ known) es, text_eq_iff x e)

contains_new : (e : Str) (known : List Str) → contains e (e ∷ known) ≡ true
unfolding contains
contains_new e known = rw text_eq_refl

pub firsts-Distinct : (known es : List Str) → Distinct (firsts known es)
unfolding firsts
firsts-Distinct known [] = tt
firsts-Distinct known (e ∷ es) = elim (Bool-cases (contains e known)) [
  | inl old ↦ rw (old, firsts) (firsts-Distinct known es)
  | inr new ↦
      rw (new, firsts)
        (
          rw (contains-firsts e (e ∷ known) es) (ground (arith, contains_new e known)),
          firsts-Distinct (e ∷ known) es,
        )
]
