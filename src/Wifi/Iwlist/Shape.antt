-- ===== src/Wifi/Iwlist/Shape.antt =====
-- The matches of every pattern in the lines of a cell.
use webboot.Prelude.{◌-◌, Str, lit, [], ◌∷◌, ◌++◌, some, length, take, ◌≡◌, refl, ap, ◌∙◌, arith}
use webboot.Wifi.Regex.{literal, skip_space, any_line, cell_re, essid_re, enc_key_opt_re, wpa2_re}
use webboot.Wifi.Regex.Lines.{NoNewline, hit}
use webboot.Wifi.Regex.Local.{any_line-all}
use webboot.Wifi.Iwlist.Cells.{
  Security, open_cell, wep_cell, psk_cell, eap_cell, both_cell, cell_line, essid_line, key_line,
  suites_line, IsPlain,
}
use webboot.Wifi.Iwlist.Hits.{Misses}

abbrev pub cell_text : Str → Str
cell_text a = take (length (cell_line a) - length (b' ' ∷ a)) (cell_line a)

pub cell_line-hit : (a : Str) → hit cell_re (cell_line a) ≡ some (cell_text a)
unfolding cell_re literal skip_space lit
cell_line-hit a = refl

take-all : (s : Str) → take (length s) s ≡ s
take-all [] = refl
take-all (c ∷ s) = ap (◌∷◌ c) (take-all s)

take-whole : (s : Str) → take (length s - 0) s ≡ s
take-whole s =
    let same : length s - 0 ≡ length s = omega arith in ap (λ n. take n s) same ∙ take-all s

pub plain-NoNewline : (n : Str) → IsPlain n → NoNewline (n ++ lit "\"")
unfolding lit
plain-NoNewline [] p = (refl, tt)
plain-NoNewline (c ∷ n) p = (p.0.0, plain-NoNewline n p.1)

pub essid_line-hit : (n : Str) → IsPlain n → hit essid_re (essid_line n) ≡ some (essid_line n)
unfolding essid_re literal skip_space any_line lit
essid_line-hit n p =
    rw (any_line-all (n ++ lit "\"") (plain-NoNewline n p)) (ap some (take-whole (essid_line n)))

pub key_line-hit : (s : Security) → hit enc_key_opt_re (key_line s) ≡ some (key_line s)
unfolding enc_key_opt_re literal skip_space lit
key_line-hit open_cell = refl
key_line-hit wep_cell = refl
key_line-hit psk_cell = refl
key_line-hit eap_cell = refl
key_line-hit both_cell = refl

pub cell_line-Misses :
    (a : Str)
    → Misses enc_key_opt_re (cell_line a ∷ [])
      × Misses essid_re (cell_line a ∷ [])
      × Misses wpa2_re (cell_line a ∷ [])
unfolding essid_re enc_key_opt_re wpa2_re literal skip_space lit
cell_line-Misses a = ((refl, tt), (refl, tt), (refl, tt))

pub essid_line-Misses :
    (n : Str)
    → Misses cell_re (essid_line n ∷ [])
      × Misses enc_key_opt_re (essid_line n ∷ [])
      × Misses wpa2_re (essid_line n ∷ [])
unfolding cell_re enc_key_opt_re wpa2_re literal skip_space lit
essid_line-Misses n = ((refl, tt), (refl, tt), (refl, tt))

pub key_line-Misses :
    (s : Security)
    → Misses cell_re (key_line s ∷ [])
      × Misses essid_re (key_line s ∷ [])
      × Misses wpa2_re (key_line s ∷ [])
unfolding cell_re essid_re wpa2_re literal skip_space lit
key_line-Misses open_cell = ((refl, tt), (refl, tt), (refl, tt))
key_line-Misses wep_cell = ((refl, tt), (refl, tt), (refl, tt))
key_line-Misses psk_cell = ((refl, tt), (refl, tt), (refl, tt))
key_line-Misses eap_cell = ((refl, tt), (refl, tt), (refl, tt))
key_line-Misses both_cell = ((refl, tt), (refl, tt), (refl, tt))

pub suites_line-Misses :
    (s : Security)
    → Misses cell_re (suites_line s)
      × Misses essid_re (suites_line s)
      × Misses enc_key_opt_re (suites_line s)
unfolding cell_re essid_re enc_key_opt_re literal skip_space lit
suites_line-Misses open_cell = (tt, tt, tt)
suites_line-Misses wep_cell = (tt, tt, tt)
suites_line-Misses psk_cell =
    ((refl, (refl, (refl, tt))), (refl, (refl, (refl, tt))), (refl, (refl, (refl, tt))))
suites_line-Misses eap_cell =
    ((refl, (refl, (refl, tt))), (refl, (refl, (refl, tt))), (refl, (refl, (refl, tt))))
suites_line-Misses both_cell =
    ((refl, (refl, (refl, tt))), (refl, (refl, (refl, tt))), (refl, (refl, (refl, tt))))
