-- ===== src/Prelude/Slices.antt =====
-- Go's slice expressions, with `none` where they panic. The upper bound of a slice is held to the
-- length, not the capacity.
use Prim.Native.Nat.{ℕ, ◌-◌, ◌≤◌}
use mathlib.Core.Path.{◌≡◌}
use mathlib.Core.Bool.{◌||◌}
use mathlib.Core.List.{List}
use mathlib.Core.Option.{Option, none, some}
use native.Mathlib.Omega.{arith}
use webboot.Prelude.Tests.{ltb, if◌then◌else◌}
use webboot.Prelude.Lists.{length, take, drop, length-take, length-drop}

module _ {A : Type 0} where
  -- `xs[lo:]`.
  unfoldable pub slice_from? : ℕ → List A → Option (List A)
  slice_from? lo xs = if ltb (length xs) lo then none else some (drop lo xs)

  -- `xs[lo:hi]`.
  unfoldable pub slice? : ℕ → ℕ → List A → Option (List A)
  slice? lo hi xs =
      if ltb hi lo || ltb (length xs) hi then none else some (take (hi - lo) (drop lo xs))

  pub slice_from?-some :
      (lo : ℕ) (xs : List A) → lo ≤ length xs → slice_from? lo xs ≡ some (drop lo xs)
  unfolding slice_from?
  slice_from?-some lo xs h = ground arith

  pub slice?-some :
      (lo hi : ℕ) (xs : List A)
      → lo ≤ hi
      → hi ≤ length xs
      → slice? lo hi xs ≡ some (take (hi - lo) (drop lo xs))
  unfolding slice?
  slice?-some lo hi xs h k = ground arith

  pub length-slice :
      (lo hi : ℕ) (xs : List A)
      → lo ≤ hi
      → hi ≤ length xs
      → length (take (hi - lo) (drop lo xs)) ≡ hi - lo
  length-slice lo hi xs h k = omega (arith, length-take (hi - lo) (drop lo xs), length-drop lo xs)
