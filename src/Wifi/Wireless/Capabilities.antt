-- ===== src/Wifi/Wireless/Capabilities.antt =====
-- What setting an event capability does to the six words of the bitmask.
use Prim.Native.Nat.{bit_and, bit_or}
use native.Mathlib.Nat.{mod-eq_of_lt}
use mathlib.Core.Option.{map as map_option}
use webboot.Prelude.{
  ℕ, zero, suc, List, [], ◌∷◌, none, some, ◌+◌, ◌-◌, ◌/◌, ◌%◌, ◌^◌, ◌≤◌, ◌<◌, ltb, ◌==◌, max,
  if◌then◌else◌, length, ◌≡◌, refl, sym, ap, ◌∙◌, ◌⊎◌, ◌↔◌, arith,
}
use webboot.Wifi.Wireless.Bits.{bit, bit-bit_or, bit-pow, bit_and-31, one_if}
use webboot.Wifi.Wireless.{
  u32, iw_event_capa_base, iw_event_capa_index, iw_event_capa_mask, or_at, iw_event_capa_set,
}

-- The place of a request or an event in the bitmask: requests from 0 on, private requests and
-- events from 96 on.
abbrev pub slot : ℕ → ℕ
slot x = if ltb x 0x8be0 then x - 0x8b00 else x - 0x8be0 + 96

-- The numbers of the requests, of the private requests and of the events.
abbrev pub IsKnown : ℕ → Type 0
IsKnown x = ((0x8b00 ≤ x) × (x < 0x8b60)) ⊎ ((0x8be0 ≤ x) × (x < 0x8c40))

abbrev pub digit_of : List ℕ → ℕ → ℕ → ℕ
digit_of [] i j = 0
digit_of (w ∷ ws) zero j = bit j w
digit_of (w ∷ ws) (suc i) j = digit_of ws i j

-- Whether the bitmask has a request or an event: 1 or 0.
abbrev pub has_capa : List ℕ → ℕ → ℕ
has_capa words x = digit_of words (slot x / 32) (slot x % 32)

or_word : ℕ → ℕ → List ℕ → List ℕ
or_word i k [] = []
or_word zero k (w ∷ ws) = bit_or w (2 ^ k) ∷ ws
or_word (suc i) k (w ∷ ws) = w ∷ or_word i k ws

or_at-some : (i k : ℕ) (ws : List ℕ) → i < length ws → or_at i (2 ^ k) ws ≡ some (or_word i k ws)
unfolding or_at or_word
or_at-some i k [] h = absurd (omega arith)
or_at-some zero k (w ∷ ws) h = refl
or_at-some (suc i) k (w ∷ ws) h = ap (map_option (◌∷◌ w)) (or_at-some i k ws (omega arith))

or_at-none : (i m : ℕ) (ws : List ℕ) → length ws ≤ i → or_at i m ws ≡ none
unfolding or_at
or_at-none i m [] h = refl
or_at-none zero m (w ∷ ws) h = absurd (omega arith)
or_at-none (suc i) m (w ∷ ws) h = ap (map_option (◌∷◌ w)) (or_at-none i m ws (omega arith))

length-or_word : (i k : ℕ) (ws : List ℕ) → length (or_word i k ws) ≡ length ws
unfolding or_word
length-or_word i k [] = refl
length-or_word zero k (w ∷ ws) = refl
length-or_word (suc i) k (w ∷ ws) = ap suc (length-or_word i k ws)

digit-or_word :
    (ws : List ℕ) (i k a j : ℕ)
    → i < length ws
    → digit_of (or_word i k ws) a j ≡ max (digit_of ws a j) (if a == i then one_if (j == k) else 0)
unfolding or_word
digit-or_word [] i k a j h = absurd (omega arith)
digit-or_word (w ∷ ws) zero k zero j h = bit-bit_or j w (2 ^ k) ∙ ap (max (bit j w)) (bit-pow j k)
digit-or_word (w ∷ ws) zero k (suc a) j h = ground arith
digit-or_word (w ∷ ws) (suc i) k zero j h = ground arith
digit-or_word (w ∷ ws) (suc i) k (suc a) j h = digit-or_word ws i k a j (omega arith) ∙ ground arith

base-slot : (x : ℕ) → IsKnown x → iw_event_capa_base x ≡ slot x
unfolding iw_event_capa_base
base-slot x h = ground arith

pow_lt : (k n : ℕ) → k < n → 2 ^ k < 2 ^ n
pow_lt k zero h = absurd (omega arith)
pow_lt zero (suc n) h = one_lt n
  where
    one_lt : (n : ℕ) → 1 < 2 ^ suc n
    one_lt zero = omega arith
    one_lt (suc n) = omega (arith, one_lt n)
pow_lt (suc k) (suc n) h = omega (arith, pow_lt k n (omega arith))

mask_lem : (b : ℕ) → u32 (2 ^ bit_and b 31) ≡ 2 ^ (b % 32)
mask_lem b = ap (λ k. u32 (2 ^ k)) (bit_and-31 b) ∙ mod-eq_of_lt (pow_lt (b % 32) 32 (omega arith))

set-or_at :
    (words : List ℕ) (cmd : ℕ)
    → iw_event_capa_set words cmd
      ≡ or_at (iw_event_capa_base cmd / 32) (2 ^ (iw_event_capa_base cmd % 32)) words
unfolding iw_event_capa_set iw_event_capa_index iw_event_capa_mask
set-or_at words cmd =
    ap (λ m. or_at (iw_event_capa_base cmd / 32) m words) (mask_lem (iw_event_capa_base cmd))

same_slot :
    (x cmd : ℕ)
    → IsKnown x
    → IsKnown cmd
    → (if slot x / 32 == slot cmd / 32 then one_if (slot x % 32 == slot cmd % 32) else 0)
      ≡ one_if (x == cmd)
same_slot x cmd h k = ground arith

-- For a request, a private request or an event and the six words of a bitmask,
-- `IW_EVENT_CAPA_SET` sets the digit of that number: every other such number stays in the bitmask
-- or out of it.
pub iw_event_capa_set_lem :
    (words : List ℕ) (cmd x : ℕ)
    → length words ≡ 6
    → IsKnown cmd
    → IsKnown x
    → (words' : List ℕ) × (iw_event_capa_set words cmd ≡ some words')
      × (length words' ≡ 6)
      × (has_capa words' x ≡ max (has_capa words x) (one_if (x == cmd)))
iw_event_capa_set_lem words cmd x six known other = (
  or_word (slot cmd / 32) (slot cmd % 32) words,
  set-or_at words cmd
      ∙ rw (base-slot cmd known) (or_at-some (slot cmd / 32) (slot cmd % 32) words inside),
  length-or_word (slot cmd / 32) (slot cmd % 32) words ∙ six,
  digit-or_word words (slot cmd / 32) (slot cmd % 32) (slot x / 32) (slot x % 32) inside
      ∙ ap (max (has_capa words x)) (same_slot x cmd other known),
)
  where
    inside : slot cmd / 32 < length words
    inside = ground arith

-- The numbers whose place is outside of six words.
abbrev pub IsOutside : ℕ → Type 0
IsOutside cmd = (cmd < 0x8b00) ⊎ ((0x8bc0 ≤ cmd) × (cmd < 0x8be0)) ⊎ (0x8c40 ≤ cmd)

base-IsOutside : (cmd : ℕ) → cmd < 2 ^ 32 → (192 ≤ iw_event_capa_base cmd) ↔ IsOutside cmd
unfolding iw_event_capa_base
base-IsOutside cmd small = (λ h. ground arith, λ h. ground arith)

or_at-none_iff : (i k : ℕ) (words : List ℕ) → (or_at i (2 ^ k) words ≡ none) ↔ (length words ≤ i)
or_at-none_iff i k words =
    (λ e. ground (arith, or_at-some i k words), λ h. or_at-none i (2 ^ k) words h)

-- With six words, `IW_EVENT_CAPA_SET` of a 32-bit number is out of range exactly for the numbers
-- below those of the requests, the last 32 before those of the private requests, and those from
-- 0x8c40 on.
pub iw_event_capa_set-none_iff :
    (words : List ℕ) (cmd : ℕ)
    → length words ≡ 6
    → cmd < 2 ^ 32
    → (iw_event_capa_set words cmd ≡ none) ↔ IsOutside cmd
iw_event_capa_set-none_iff words cmd six small =
    let (outside, place) = base-IsOutside cmd small in
    let (beyond, fails) =
      or_at-none_iff (iw_event_capa_base cmd / 32) (iw_event_capa_base cmd % 32) words in
    (
      λ e. outside (omega (arith, beyond (sym (set-or_at words cmd) ∙ e))),
      λ o. set-or_at words cmd ∙ fails (omega (arith, place o)),
    )
