-- ===== src/Tests/Wireless.antt =====
-- pkg/wifi/wireless.go at fixed inputs: the numbers of the kernel header.
use webboot.Prelude.{
  ℕ, Bool, true, false, List, [], ◌∷◌, ◌&&◌, Option, none, some, ◌≡◌, refl, ◌==◌, inl, inr, ◌↔◌,
  max, length, arith,
}
use webboot.Wifi.Wireless.{
  iw_is_set, iw_is_get, iw_event_idx, iw_event_capa_base, iw_event_capa_index, iw_event_capa_mask,
  iw_event_capa_k_0, iw_event_capa_k_1, or_at, iw_event_capa_set, iw_event_capa_set_kernel,
}
use webboot.Wifi.Wireless.Bits.{bit, one_if}
use webboot.Wifi.Wireless.Requests.{
  siocsiwfreq, siocsiwmode, siocsiwessid, siocsiwencode, siocgiwap, set_requests, get_requests,
}
use webboot.Wifi.Wireless.Events.{iwevcustom, events}
use webboot.Wifi.Wireless.Capabilities.{
  has_capa, IsOutside, iw_event_capa_set_lem, iw_event_capa_set-none_iff,
}

abbrev no_capas : List ℕ
no_capas = 0 ∷ 0 ∷ 0 ∷ 0 ∷ 0 ∷ 0 ∷ []

abbrev all_in : (ℕ → Bool) → List ℕ → Bool
all_in p [] = true
all_in p (x ∷ xs) = p x && all_in p xs

abbrev set_all : List ℕ → List ℕ → Option (List ℕ)
set_all words [] = some words
set_all words (c ∷ cs) = elim (iw_event_capa_set words c) [ none ↦ none | some ws ↦ set_all ws cs ]

set_requests_set : all_in iw_is_set set_requests ≡ true
unfolding iw_is_set
set_requests_set = refl

get_requests_get : all_in iw_is_get get_requests ≡ true
unfolding iw_is_get
get_requests_get = refl

events_in_order : iw_event_idx iwevcustom ≡ 2
unfolding iw_event_idx
events_in_order = refl

-- The capabilities that the kernel sets by itself, by their names.
kernel_capas :
    set_all no_capas (siocsiwfreq ∷ siocsiwmode ∷ siocsiwessid ∷ siocsiwencode ∷ [])
    ≡ iw_event_capa_set_kernel no_capas
unfolding iw_event_capa_set iw_event_capa_set_kernel iw_event_capa_k_0 iw_event_capa_k_1
    iw_event_capa_index iw_event_capa_mask iw_event_capa_base or_at
kernel_capas = refl

events_fit :
    all_in
      (λ c. elim (iw_event_capa_set no_capas c) [ none ↦ false | some ws ↦ has_capa ws c == 1 ])
      events
    ≡ true
unfolding iw_event_capa_set iw_event_capa_index iw_event_capa_mask iw_event_capa_base or_at bit
events_fit = refl

iw_event_capa_set_lem_example :
    (words : List ℕ) × (iw_event_capa_set no_capas iwevcustom ≡ some words)
    × (length words ≡ 6)
    × (has_capa words siocgiwap
        ≡ max (has_capa no_capas siocgiwap) (one_if (siocgiwap == iwevcustom)))
iw_event_capa_set_lem_example =
    iw_event_capa_set_lem no_capas iwevcustom siocgiwap refl (inr (omega arith, omega arith))
      (inl (omega arith, omega arith))

iw_event_capa_set-none_iff_example : (iw_event_capa_set no_capas 0x8bd0 ≡ none) ↔ IsOutside 0x8bd0
iw_event_capa_set-none_iff_example = iw_event_capa_set-none_iff no_capas 0x8bd0 refl (omega arith)
