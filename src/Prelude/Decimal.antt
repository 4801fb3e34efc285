-- ===== src/Prelude/Decimal.antt =====
-- Decimal numerals: `%d` and `%v` of a number that is not negative, and `strconv.Atoi`.
use Prim.Native.Nat.{ℕ, zero, suc, ◌+◌, ◌-◌, ◌*◌, ◌/◌, ◌%◌, ◌^◌, ◌<◌, ◌≤◌}
use mathlib.Core.Path.{◌≡◌, refl, ap, ◌∙◌}
use mathlib.Core.Logic.{◌≢◌, inl, inr}
use mathlib.Core.Bool.{◌&&◌}
use mathlib.Core.List.{[], ◌∷◌, ◌++◌, concat-ne-nil}
use mathlib.Core.Option.{Option, none, some}
use native.Mathlib.Omega.{arith}
use webboot.Prelude.Tests.{ltb, leb, ◌==◌, if◌then◌else◌, Bool-cases, ltb→lt}
use webboot.Prelude.Text.{Str}

-- `negsuc n` is -(n + 1).
pub data ℤ : Type 0 where
  pos : ℕ → ℤ
  negsuc : ℕ → ℤ

digits : ℕ → ℕ → Str
digits zero n = []
digits (suc f) n =
    let rest = digits f (n / 10) ++ (48 + n % 10) ∷ [] in if ltb n 10 then (48 + n) ∷ [] else rest

-- The decimal digits of `n`; the fuel is one more than `n`, and a round divides by ten.
unfoldable pub itoa : ℕ → Str
unfolding digits
itoa n = digits (suc n) n

unfoldable pub parse_digits : ℕ → Str → Option ℕ
parse_digits acc [] = some acc
parse_digits acc (c ∷ s) =
    if leb b'0' c && leb c b'9' then parse_digits (acc * 10 + (c - 48)) s else none

magnitude : Str → Option ℕ
magnitude [] = none
magnitude (c ∷ s) = parse_digits 0 (c ∷ s)

-- An `int` has 64 bits: values out of range are errors.
positive : Option ℕ → Option ℤ
positive none = none
positive (some n) = if ltb n (2 ^ 63) then some (pos n) else none

minus : ℕ → ℤ
minus zero = pos 0
minus (suc n) = negsuc n

negative : Option ℕ → Option ℤ
unfolding minus
negative none = none
negative (some n) = if leb n (2 ^ 63) then some (minus n) else none

-- `none` for an error.
unfoldable pub atoi : Str → Option ℤ
unfolding parse_digits magnitude positive negative
atoi [] = none
atoi (c ∷ s) =
    if c == b'-'
    then negative (magnitude s)
    else if c == b'+'
    then positive (magnitude s)
    else positive (magnitude (c ∷ s))

abbrev pub AllDigits : Str → Type 0
AllDigits [] = Unit
AllDigits (c ∷ s) = (48 ≤ c) × (c ≤ 57) × AllDigits s

AllDigits-append : (a b : Str) → AllDigits a → AllDigits b → AllDigits (a ++ b)
AllDigits-append [] b h k = k
AllDigits-append (c ∷ a) b h k = (h.0, h.1, AllDigits-append a b h.2 k)

digits-AllDigits : (f n : ℕ) → AllDigits (digits f n)
unfolding digits
digits-AllDigits zero n = tt
digits-AllDigits (suc f) n = elim (Bool-cases (ltb n 10)) [
  | inl small ↦ rw small (omega (arith, ltb→lt), omega (arith, ltb→lt), tt)
  | inr big ↦ rw big (
      AllDigits-append (digits f (n / 10)) _ (digits-AllDigits f (n / 10))
        (omega arith, omega arith, tt))
]

pub itoa-AllDigits : (n : ℕ) → AllDigits (itoa n)
unfolding itoa
itoa-AllDigits n = digits-AllDigits (suc n) n

parse_digits-append :
    (a : Str) (acc m d : ℕ)
    → parse_digits acc a ≡ some m
    → d < 10
    → parse_digits acc (a ++ (48 + d) ∷ []) ≡ some (m * 10 + d)
unfolding parse_digits
parse_digits-append [] acc m d h lt = ground arith
parse_digits-append (c ∷ a) acc m d h lt =
    ground (arith, parse_digits-append a (acc * 10 + (c - 48)) m d)

parse_digits-digits : (f n : ℕ) → n < f → parse_digits 0 (digits f n) ≡ some n
unfolding digits
parse_digits-digits zero n h = absurd (omega arith)
parse_digits-digits (suc f) n h = elim (Bool-cases (ltb n 10)) [
  | inl small ↦ rw small (unfold parse_digits in ground arith)
  | inr big ↦ rw big (
      parse_digits-append (digits f (n / 10)) 0 (n / 10) (n % 10)
        (parse_digits-digits f (n / 10) (ground arith)) (omega arith)
      ∙ ap some (omega arith))
]

pub parse_digits-itoa : (n : ℕ) → parse_digits 0 (itoa n) ≡ some n
unfolding itoa
parse_digits-itoa n = parse_digits-digits (suc n) n (omega arith)

atoi_digits :
    (s : Str) (n : ℕ)
    → s ≢ []
    → AllDigits s
    → parse_digits 0 s ≡ some n
    → n < 2 ^ 63
    → atoi s ≡ some (pos n)
unfolding atoi parse_digits
atoi_digits [] n ne d h lt = absurd (ne refl)
atoi_digits (c ∷ s) n ne d h lt = ground arith

pub itoa-ne-nil : (n : ℕ) → itoa n ≢ []
unfolding itoa digits
itoa-ne-nil n = elim (Bool-cases (ltb n 10)) [
  | inl small ↦ rw small (λ e. cc)
  | inr big ↦ rw big (concat-ne-nil _ (digits n (n / 10)))
]

-- `Atoi` reads back what `%d` prints.
pub atoi-itoa : (n : ℕ) → n < 2 ^ 63 → atoi (itoa n) ≡ some (pos n)
atoi-itoa n lt = atoi_digits (itoa n) n (itoa-ne-nil n) (itoa-AllDigits n) (parse_digits-itoa n) lt
