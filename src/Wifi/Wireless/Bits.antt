-- ===== src/Wifi/Wireless/Bits.antt =====
-- The binary digits of a number, and those of `|` and `&`.
use Prim.Native.Nat.{digits, bit_and, bit_and-bitwise, bit_or, bit_or-bitwise}
use webboot.Prelude.{
  ℕ, zero, suc, Bool, true, false, ◌+◌, ◌*◌, ◌/◌, ◌%◌, ◌^◌, ◌≤◌, min, max, ◌==◌, ◌≡◌, refl, sym, ap,
  ◌∙◌, arith,
}

-- An operation on two numbers digit by digit, with `rest` where the first has ended.
module _ (rest : ℕ → ℕ) (op : ℕ → ℕ → ℕ) where
  -- More rounds than digits change nothing.
  enough : (n m a b : ℕ) → a ≤ n → a ≤ m → digits rest op n a b ≡ digits rest op m a b
  enough zero m (suc a) b p q = absurd (omega arith)
  enough (suc n) zero (suc a) b p q = absurd (omega arith)
  enough (suc n) (suc m) (suc a) b p q =
      ap (λ (d : ℕ). d * 2 + op (suc a % 2) (b % 2))
        (enough n m (suc a / 2) (b / 2) (omega arith) (omega arith))
  enough zero zero zero b p q = refl
  enough zero (suc m) zero b p q = refl
  enough (suc n) zero zero b p q = refl
  enough (suc n) (suc m) zero b p q = refl

  -- The lowest digit, and the others.
  lowest :
      (a b : ℕ)
      → digits rest op (suc a) (suc a) b
        ≡ digits rest op (suc a / 2) (suc a / 2) (b / 2) * 2 + op (suc a % 2) (b % 2)
  lowest a b =
      ap (λ (d : ℕ). d * 2 + op (suc a % 2) (b % 2))
        (enough a (suc a / 2) (suc a / 2) (b / 2) (omega arith) (omega arith))

bit_or-lowest : (a b : ℕ) → bit_or a b ≡ bit_or (a / 2) (b / 2) * 2 + max (a % 2) (b % 2)
bit_or-lowest zero b = omega (arith, bit_or-bitwise 0 b, bit_or-bitwise 0 (b / 2))
bit_or-lowest (suc a) b =
    bit_or-bitwise (suc a) b
    ∙ lowest (λ d. d) max a b
    ∙ ap (λ (d : ℕ). d * 2 + max (suc a % 2) (b % 2)) (sym (bit_or-bitwise (suc a / 2) (b / 2)))

bit_and-lowest : (a b : ℕ) → bit_and a b ≡ bit_and (a / 2) (b / 2) * 2 + min (a % 2) (b % 2)
bit_and-lowest zero b = omega (arith, bit_and-bitwise 0 b, bit_and-bitwise 0 (b / 2))
bit_and-lowest (suc a) b =
    bit_and-bitwise (suc a) b
    ∙ lowest (λ d. zero) min a b
    ∙ ap (λ (d : ℕ). d * 2 + min (suc a % 2) (b % 2)) (sym (bit_and-bitwise (suc a / 2) (b / 2)))

no_common : (n a : ℕ) → a ≤ n → bit_and a 0 ≡ 0
no_common n zero h = bit_and-bitwise 0 0
no_common zero (suc a) h = absurd (omega arith)
no_common (suc n) (suc a) h =
    omega (arith, bit_and-lowest (suc a) 0, no_common n (suc a / 2) (omega arith))

-- `a & 1` is the lowest digit, and `a & 0x1f` the five lowest.
pub bit_and-1 : (a : ℕ) → bit_and a 1 ≡ a % 2
bit_and-1 a = omega (arith, bit_and-lowest a 1, no_common (a / 2) (a / 2) (omega arith))

pub bit_and-31 : (a : ℕ) → bit_and a 31 ≡ a % 32
bit_and-31 a = omega (
  arith,
  bit_and-lowest a 31,
  bit_and-lowest (a / 2) 15,
  bit_and-lowest (a / 2 / 2) 7,
  bit_and-lowest (a / 2 / 2 / 2) 3,
  bit_and-1 (a / 2 / 2 / 2 / 2),
)

-- The digit at a position.
unfoldable pub bit : ℕ → ℕ → ℕ
bit zero w = w % 2
bit (suc j) w = bit j (w / 2)

half-bit_or : (a b : ℕ) → bit_or a b / 2 ≡ bit_or (a / 2) (b / 2)
half-bit_or a b = omega (arith, bit_or-lowest a b)

-- A digit of `|` is the larger of the two.
pub bit-bit_or : (j a b : ℕ) → bit j (bit_or a b) ≡ max (bit j a) (bit j b)
unfolding bit
bit-bit_or zero a b = omega (arith, bit_or-lowest a b)
bit-bit_or (suc j) a b = rw (half-bit_or a b) (bit-bit_or j (a / 2) (b / 2))

bit-zero : (j : ℕ) → bit j 0 ≡ 0
unfolding bit
bit-zero zero = refl
bit-zero (suc j) = bit-zero j

abbrev pub one_if : Bool → ℕ
one_if true = 1
one_if false = 0

-- A power of two has one digit.
pub bit-pow : (j k : ℕ) → bit j (2 ^ k) ≡ one_if (j == k)
unfolding bit
bit-pow zero zero = refl
bit-pow (suc j) zero = rw (bit-zero j) (ground arith)
bit-pow zero (suc k) = ground arith
bit-pow (suc j) (suc k) =
    let half : 2 ^ suc k / 2 ≡ 2 ^ k = omega arith in ap (bit j) half ∙ bit-pow j k ∙ ground arith
