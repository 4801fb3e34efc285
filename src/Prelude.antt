-- ===== src/Prelude.antt =====
-- The names that the other modules share: the libraries', passed on, and those of the children.
mod Tests
mod Lists
mod Text
mod Decimal
mod Slices
pub use Tests.*
pub use Lists.*
unfoldable pub use Text.{lit, text_eq, join, split}
unfoldable pub use Slices.{slice_from?, slice?}
pub use Slices.{slice_from?-some, slice?-some, length-slice}
unfoldable pub use Decimal.{itoa, parse_digits, atoi}
pub use Decimal.{ℤ, pos, negsuc, AllDigits, itoa-AllDigits, atoi-itoa, itoa-ne-nil}
pub use Text.{Str, is_empty, text_eq_iff, text_eq_refl, text_ne, cons_head}
pub use Prim.Native.Nat.{ℕ, zero, suc, ◌+◌, ◌-◌, ◌*◌, ◌/◌, ◌%◌, ◌^◌, ◌≤◌, ◌<◌, min, max}
pub use mathlib.Core.Path.{◌≡◌, refl, sym, ap, ◌∙◌}
pub use mathlib.Core.Logic.{◌≢◌, ◌↔◌, ◌⊎◌, inl, inr}
pub use mathlib.Core.Bool.{Bool, true, false, not, ◌&&◌, ◌||◌}
pub use mathlib.Core.Option.{Option, none, some}
pub use mathlib.Core.List.{List, [], ◌∷◌, ◌++◌, map, append-nil, append_assoc}
pub use native.Mathlib.Omega.{arith}
