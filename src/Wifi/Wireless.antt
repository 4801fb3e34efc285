-- ===== src/Wifi/Wireless.antt =====
-- The functions of pkg/wifi/wireless.go, on numbers of type `uint32`.
pub mod Requests
pub mod Events
pub mod Bits
pub mod Capabilities
use Prim.Native.Nat.{bit_and, bit_or}
use mathlib.Core.Option.{map as map_option}
use webboot.Prelude.{
  ℕ, zero, suc, Bool, not, List, [], ◌∷◌, Option, none, some, ◌+◌, ◌-◌, ◌/◌, ◌%◌, ◌^◌, leb, ◌==◌,
  if◌then◌else◌, get_elem?,
}

abbrev pub u32 : ℕ → ℕ
u32 n = n % 2 ^ 32

-- `a - b` on `uint32`.
abbrev sub_u32 : ℕ → ℕ → ℕ
sub_u32 a b = u32 (a + 2 ^ 32 - b)

abbrev pub siociwfirst : ℕ
siociwfirst = 0x8b00

abbrev pub siociwfirstpriv : ℕ
siociwfirstpriv = 0x8be0

abbrev iwevfirst : ℕ
iwevfirst = 0x8c00

unfoldable pub iw_is_set : ℕ → Bool
iw_is_set cmd = not (not (bit_and cmd 1 == 0))

unfoldable pub iw_is_get : ℕ → Bool
iw_is_get cmd = not (bit_and cmd 1 == 0)

unfoldable pub iw_event_idx : ℕ → ℕ
iw_event_idx cmd = sub_u32 cmd iwevfirst

unfoldable pub iw_event_capa_base : ℕ → ℕ
iw_event_capa_base cmd =
    if leb siociwfirstpriv cmd
    then u32 (sub_u32 cmd siociwfirstpriv + 0x60)
    else sub_u32 cmd siociwfirst

unfoldable pub iw_event_capa_index : ℕ → ℕ
iw_event_capa_index cmd = iw_event_capa_base cmd / 2 ^ 5

unfoldable pub iw_event_capa_mask : ℕ → ℕ
iw_event_capa_mask cmd = u32 (2 ^ bit_and (iw_event_capa_base cmd) 0x1f)

unfoldable pub iw_event_capa_k_0 : ℕ
iw_event_capa_k_0 =
    bit_or (bit_or (iw_event_capa_mask 0x8b04) (iw_event_capa_mask 0x8b06))
      (iw_event_capa_mask 0x8b1a)

unfoldable pub iw_event_capa_k_1 : ℕ
iw_event_capa_k_1 = iw_event_capa_mask 0x8b2a

-- `words[i] |= mask`; an index out of range panics.
unfoldable pub or_at : ℕ → ℕ → List ℕ → Option (List ℕ)
or_at i mask [] = none
or_at zero mask (w ∷ ws) = some (bit_or w mask ∷ ws)
or_at (suc i) mask (w ∷ ws) = map_option (◌∷◌ w) (or_at i mask ws)

unfoldable pub iw_event_capa_set : List ℕ → ℕ → Option (List ℕ)
iw_event_capa_set event_capa cmd =
    or_at (iw_event_capa_index cmd) (iw_event_capa_mask cmd) event_capa

abbrev or_then : ℕ → ℕ → Option (List ℕ) → Option (List ℕ)
or_then i mask none = none
or_then i mask (some words) = or_at i mask words

unfoldable pub iw_event_capa_set_kernel : List ℕ → Option (List ℕ)
iw_event_capa_set_kernel event_capa =
    or_then 1 iw_event_capa_k_1 (or_at 0 iw_event_capa_k_0 event_capa)
