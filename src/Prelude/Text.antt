-- ===== src/Prelude/Text.antt =====
-- Go strings: byte sequences, as lists of numbers. The source's literals are ASCII.
use Prim.Native.Nat.{ℕ}
use Prim.Native.Char.{code}
use Prim.Native.String.{String}
use mathlib.Core.Path.{◌≡◌, refl, sym, ◌∙◌}
use mathlib.Core.Logic.{◌↔◌, ◌≢◌}
use mathlib.Core.Bool.{Bool, true, false, ◌&&◌, false≢true}
use mathlib.Core.List.{List, [], ◌∷◌, ◌++◌}
use native.Mathlib.Omega.{arith}
use webboot.Prelude.Tests.{◌==◌, if◌then◌else◌}

abbrev pub Str : Type 0
Str = List ℕ

-- A literal of the source, as its bytes. It stays shut in proofs.
unfoldable pub lit : String → Str
lit String.[] = []
lit (String.◌∷◌ c s) = code c ∷ lit s

-- `a == b` on strings.
unfoldable pub text_eq : Str → Str → Bool
text_eq [] [] = true
text_eq (x ∷ a) (y ∷ b) = (x == y) && text_eq a b
text_eq _ _ = false

pub text_eq_iff : (a b : Str) → (text_eq a b ≡ true) ↔ (a ≡ b)
unfolding text_eq
text_eq_iff (x ∷ a) (y ∷ b) = ground (arith, text_eq_iff a b)
text_eq_iff _ _ = ground arith

pub text_eq_refl : (a : Str) → text_eq a a ≡ true
text_eq_refl a = (text_eq_iff a a).1 refl

abbrev pub is_empty : Str → Bool
is_empty [] = true
is_empty (x ∷ a) = false

-- `strings.Join`.
unfoldable pub join : Str → List Str → Str
join sep [] = []
join sep (a ∷ []) = a
join sep (a ∷ b ∷ l) = a ++ (sep ++ join sep (b ∷ l))

abbrev pub cons_head : ℕ → List Str → List Str
cons_head x [] = (x ∷ []) ∷ []
cons_head x (p ∷ ps) = (x ∷ p) ∷ ps

-- `strings.Split(s, c)` for a separator of one byte; never empty.
unfoldable pub split : ℕ → Str → List Str
split c [] = [] ∷ []
split c (x ∷ s) = let rest = split c s in if x == c then [] ∷ rest else cons_head x rest

pub text_ne : (a b : Str) → text_eq a b ≡ false → a ≢ b
text_ne a b h e = false≢true (sym h ∙ (text_eq_iff a b).1 e)
