-- ===== src/Wifi/Iwlist/Fields.antt =====
-- The name and the key of a cell as its lines give them.
use mathlib.Core.List.{reverse, reverse-append, reverse-reverse}
use webboot.Prelude.{
  ℕ, Bool, true, false, Str, lit, [], ◌∷◌, ◌++◌, some, ◌==◌, ◌||◌, ◌≡◌, refl, ap, ◌∙◌,
}
use webboot.Wifi.Iwlist.{before_colon, second_field, trim_left, trim, essid_of}
use webboot.Wifi.Iwlist.Cells.{IsPlain, essid_line}

abbrev quoted : ℕ → Bool
quoted c = c == b'"' || c == b'\n'

before_colon-plain : (n : Str) → IsPlain n → before_colon (n ++ lit "\"") ≡ n ++ lit "\""
unfolding lit
before_colon-plain [] p = refl
before_colon-plain (c ∷ n) p = rw p.0.1 (ap (◌∷◌ c) (before_colon-plain n p.1))

abbrev Kept : (ℕ → Bool) → Str → Type 0
Kept cut [] = Unit
Kept cut (c ∷ s) = (cut c ≡ false) × Kept cut s

trim_left-Kept : (cut : ℕ → Bool) (s : Str) → Kept cut s → trim_left cut s ≡ s
trim_left-Kept cut [] k = refl
trim_left-Kept cut (c ∷ s) k = rw k.0 refl

Kept-append : (cut : ℕ → Bool) (s t : Str) → Kept cut s → Kept cut t → Kept cut (s ++ t)
Kept-append cut [] t k l = l
Kept-append cut (c ∷ s) t k l = (k.0, Kept-append cut s t k.1 l)

Kept-reverse : (cut : ℕ → Bool) (s : Str) → Kept cut s → Kept cut (reverse s)
Kept-reverse cut [] k = tt
Kept-reverse cut (c ∷ s) k =
    rw (reverse-append (c ∷ []) s)
      (Kept-append cut (reverse s) (c ∷ []) (Kept-reverse cut s k.1) (k.0, tt))

plain-Kept : (n : Str) → IsPlain n → Kept quoted n
plain-Kept [] p = tt
plain-Kept (c ∷ n) p = (rw (p.0.0, p.0.2) refl, plain-Kept n p.1)

trim_left-front :
    (cut : ℕ → Bool) (c : ℕ) (s t : Str) → cut c ≡ false → trim_left cut (c ∷ s ++ t) ≡ c ∷ s ++ t
trim_left-front cut c s t h = rw h refl

trim_left-cut :
    (cut : ℕ → Bool) (q : ℕ) (s : Str) → cut q ≡ true → trim_left cut (q ∷ s) ≡ trim_left cut s
trim_left-cut cut q s h = rw h refl

-- A text before one byte that is cut off.
trim_left-end :
    (cut : ℕ → Bool) (s : Str) (q : ℕ)
    → Kept cut s
    → cut q ≡ true
    → reverse (trim_left cut (reverse (trim_left cut (s ++ q ∷ [])))) ≡ s
trim_left-end cut [] q k h = rw h refl
trim_left-end cut (c ∷ s) q k h =
    ap (λ r. reverse (trim_left cut (reverse r))) (trim_left-front cut c s (q ∷ []) k.0)
    ∙ ap (λ r. reverse (trim_left cut r)) (reverse-append (c ∷ s) (q ∷ []))
    ∙ ap reverse (
        trim_left-cut cut q (reverse (c ∷ s)) h
        ∙ trim_left-Kept cut (reverse (c ∷ s)) (Kept-reverse cut (c ∷ s) k))
    ∙ reverse-reverse (c ∷ s)

-- The name in the line that quotes it.
pub essid_of-essid_line : (n : Str) → IsPlain n → essid_of (essid_line n) ≡ some n
unfolding essid_of second_field trim lit
essid_of-essid_line n p =
    ap (λ f. some (trim (λ c. c == b'"' || c == b'\n') (b'"' ∷ f))) (before_colon-plain n p)
    ∙ ap some (trim_left-end (λ c. c == b'"' || c == b'\n') n b'"' (plain-Kept n p) refl)
