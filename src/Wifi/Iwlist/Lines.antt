-- ===== src/Wifi/Iwlist/Lines.antt =====
-- Where the name stands in an ESSID line.
use mathlib.Core.List.{reverse, reverse-append, reverse-reverse}
use mathlib.Core.Path.{subst}
use mathlib.Core.Option.{some-injective}
use webboot.Prelude.{
  ℕ, Bool, true, false, Str, [], ◌∷◌, ◌++◌, none, some, ◌==◌, ◌||◌, ◌≡◌, refl, sym, ap, ◌∙◌,
  Bool-cases, inl, inr, Option-cases,
}
use webboot.Wifi.Iwlist.{before_colon, second_field, trim_left, trim, essid_of}

-- A byte that is not part of a name at its ends.
abbrev pub outer : ℕ → Bool
outer c = c == b'"' || c == b'\n'

abbrev pub AllOuter : Str → Type 0
AllOuter [] = Unit
AllOuter (c ∷ s) = (outer c ≡ true) × AllOuter s

abbrev pub BeginsInner : Str → Type 0
BeginsInner [] = Unit
BeginsInner (c ∷ s) = outer c ≡ false

abbrev pub NoColon : Str → Type 0
NoColon [] = Unit
NoColon (c ∷ s) = ((c == b':') ≡ false) × NoColon s

-- The end of the line, or another colon.
abbrev pub IsBehind : Str → Type 0
IsBehind [] = Unit
IsBehind (c ∷ s) = (c == b':') ≡ true

-- The name stands behind the first colon of the line, up to the next one or the end of the line,
-- less the quotes and newlines before and behind it.
abbrev pub IsNameIn : Str → Str → Type 0
IsNameIn line name =
    (before : Str) × (colon : ℕ) × (left : Str) × (right : Str) × (behind : Str) × (line
      ≡ before ++ colon ∷ (left ++ (name ++ right)) ++ behind)
    × ((colon == b':') ≡ true)
    × NoColon before
    × NoColon (left ++ (name ++ right))
    × IsBehind behind
    × AllOuter left
    × AllOuter right
    × BeginsInner name
    × BeginsInner (reverse name)

before_colon-split :
    (s : Str)
    → (behind : Str) × (s ≡ before_colon s ++ behind) × NoColon (before_colon s) × IsBehind behind
before_colon-split [] = ([], refl, tt, tt)
before_colon-split (c ∷ s) = elim (Bool-cases (c == b':')) [
  | inl e ↦ (c ∷ s, rw e refl, rw e tt, e)
  | inr e ↦
      let (behind, w, n, b) = before_colon-split s in (behind, rw e (ap (◌∷◌ c) w), rw e (e, n), b)
]

second_field-split :
    (line f : Str)
    → second_field line ≡ some f
    → (before : Str) × (colon : ℕ) × (behind : Str) × (line ≡ before ++ colon ∷ f ++ behind)
      × ((colon == b':') ≡ true)
      × NoColon before
      × NoColon f
      × IsBehind behind
unfolding second_field
second_field-split [] f h = let no : none ≡ some f = h in cc
second_field-split (c ∷ s) f h = elim (Bool-cases (c == b':')) [
  | inl e ↦
      let same : before_colon s ≡ f = some-injective _ _ (rw e at h) in
      let (behind, w, n, b) = before_colon-split s in
      ([], c, behind, ap (◌∷◌ c) (w ∙ ap (λ g. g ++ behind) same), e, tt, rw⁻¹ same n, b)
  | inr e ↦
      let (before, colon, behind, w, k, n, m, b) = second_field-split s f (rw e at h) in
      (c ∷ before, colon, behind, ap (◌∷◌ c) w, k, (e, n), m, b)
]

trim_left-split :
    (s : Str)
    → (left : Str) × (s ≡ left ++ trim_left outer s)
      × AllOuter left
      × BeginsInner (trim_left outer s)
trim_left-split [] = ([], refl, tt, tt)
trim_left-split (c ∷ s) = elim (Bool-cases (outer c)) [
  | inl e ↦
      let (left, w, a, b) = trim_left-split s in (c ∷ left, rw e (ap (◌∷◌ c) w), (e, a), rw e b)
  | inr e ↦ ([], rw e refl, tt, rw e e)
]

AllOuter-append : (s t : Str) → AllOuter s → AllOuter t → AllOuter (s ++ t)
AllOuter-append [] t a b = b
AllOuter-append (c ∷ s) t a b = (a.0, AllOuter-append s t a.1 b)

AllOuter-reverse : (s : Str) → AllOuter s → AllOuter (reverse s)
AllOuter-reverse [] a = tt
AllOuter-reverse (c ∷ s) a =
    rw (reverse-append (c ∷ []) s)
      (AllOuter-append (reverse s) (c ∷ []) (AllOuter-reverse s a.1) (a.0, tt))

BeginsInner-front : (s t : Str) → BeginsInner (s ++ t) → BeginsInner s
BeginsInner-front [] t b = tt
BeginsInner-front (c ∷ s) t b = b

trim-split :
    (s : Str)
    → (left : Str) × (right : Str) × (s ≡ left ++ (trim outer s ++ right))
      × AllOuter left
      × AllOuter right
      × BeginsInner (trim outer s)
      × BeginsInner (reverse (trim outer s))
unfolding trim
trim-split s =
    let (left, w, a, b) = trim_left-split s in
    let m = trim_left outer s in
    let (r, v, c, d) = trim_left-split (reverse m) in
    let k = trim_left outer (reverse m) in
    let split : m ≡ reverse k ++ reverse r =
      sym (reverse-reverse m) ∙ ap reverse v ∙ reverse-append r k in
    (
      left,
      reverse r,
      w ∙ ap (◌++◌ left) split,
      a,
      AllOuter-reverse r c,
      BeginsInner-front (reverse k) (reverse r) (rw split at b),
      rw (reverse-reverse k) d,
    )

trimmed-IsNameIn : (line f : Str) → second_field line ≡ some f → IsNameIn line (trim outer f)
trimmed-IsNameIn line f h =
    let (before, colon, behind, w, k, n, m, b) = second_field-split line f h in
    let (left, right, v, a, c, d, e) = trim-split f in
    (
      before,
      colon,
      left,
      right,
      behind,
      w ∙ ap (λ g. before ++ colon ∷ g ++ behind) v,
      k,
      n,
      subst NoColon v m,
      b,
      a,
      c,
      d,
      e,
    )

pub essid_of-IsNameIn : (line name : Str) → essid_of line ≡ some name → IsNameIn line name
unfolding essid_of
essid_of-IsNameIn line name h = elim (Option-cases (second_field line)) [
  | inl e ↦ let no : none ≡ some name = rw (e, essid_of) at h in cc
  | inr (f, e) ↦
      subst (IsNameIn line) (some-injective _ _ (rw (e, essid_of) at h)) (trimmed-IsNameIn line f e)
]
