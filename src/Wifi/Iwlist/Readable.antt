-- ===== src/Wifi/Iwlist/Readable.antt =====
-- Every line of the output has something to read.
use mathlib.Core.List.{cons-ne-nil}
use webboot.Prelude.{Bool, true, false, Str, lit, List, [], ◌∷◌, ◌++◌, ◌≡◌, ◌≢◌, refl}
use webboot.Wifi.Regex.{skip_space}
use webboot.Wifi.Regex.Lines.{NoNewline, one_line, one_line-NoNewline, IsReadable, AllReadable}
use webboot.Wifi.Iwlist.Cells.{
  Security, open_cell, wep_cell, psk_cell, eap_cell, both_cell, AccessPoint, cell_line, essid_line,
  key_line, wpa2_lines, suites_line, cell_lines, scan_lines, IsPlain, IsScanned,
}
use webboot.Wifi.Iwlist.Hits.{AllReadable-append, IsQuiet-AllReadable}
use webboot.Wifi.Iwlist.Shape.{plain-NoNewline}

abbrev pub something : Str → Bool
something [] = false
something (c ∷ s) = true

something-ne-nil : (s : Str) → something s ≡ true → s ≢ []
something-ne-nil [] h = let refused : false ≡ true = h in cc
something-ne-nil (c ∷ s) h = cons-ne-nil c s

pub closed-IsReadable :
    (l : Str) → one_line l ≡ true → something (skip_space l) ≡ true → IsReadable l
closed-IsReadable l h k = (one_line-NoNewline l h, something-ne-nil (skip_space l) k)

NoNewline-append : (s t : Str) → NoNewline s → NoNewline t → NoNewline (s ++ t)
NoNewline-append [] t m n = n
NoNewline-append (c ∷ s) t m n = (m.0, NoNewline-append s t m.1 n)

wpa2_lines-AllReadable : (suites : Str) → IsReadable suites → AllReadable (wpa2_lines suites)
unfolding skip_space lit
wpa2_lines-AllReadable suites r = (
  closed-IsReadable (lit "                    IE: IEEE 802.11i/WPA2 Version 1") refl refl,
  (closed-IsReadable (lit "                        Group Cipher : CCMP") refl refl, (r, tt)),
)

suites_line-AllReadable : (s : Security) → AllReadable (suites_line s)
unfolding skip_space lit
suites_line-AllReadable open_cell = tt
suites_line-AllReadable wep_cell = tt
suites_line-AllReadable psk_cell =
    wpa2_lines-AllReadable (lit "                        Authentication Suites (1) : PSK")
      (closed-IsReadable (lit "                        Authentication Suites (1) : PSK") refl refl)
suites_line-AllReadable eap_cell =
    wpa2_lines-AllReadable (lit "                        Authentication Suites (1) : 802.1x") (
      closed-IsReadable (lit "                        Authentication Suites (1) : 802.1x") refl
        refl)
suites_line-AllReadable both_cell =
    wpa2_lines-AllReadable (lit "                        Authentication Suites (2) : PSK 802.1x") (
      closed-IsReadable (lit "                        Authentication Suites (2) : PSK 802.1x") refl
        refl)

key_line-IsReadable : (s : Security) → IsReadable (key_line s)
unfolding skip_space lit
key_line-IsReadable open_cell = closed-IsReadable (key_line open_cell) refl refl
key_line-IsReadable wep_cell = closed-IsReadable (key_line wep_cell) refl refl
key_line-IsReadable psk_cell = closed-IsReadable (key_line psk_cell) refl refl
key_line-IsReadable eap_cell = closed-IsReadable (key_line eap_cell) refl refl
key_line-IsReadable both_cell = closed-IsReadable (key_line both_cell) refl refl

cell_line-IsReadable : (a : Str) → NoNewline a → IsReadable (cell_line a)
unfolding skip_space lit
cell_line-IsReadable a n = (
  NoNewline-append (lit "          Cell ") a (one_line-NoNewline (lit "          Cell ") refl) n,
  cons-ne-nil _ _,
)

essid_line-IsReadable : (n : Str) → IsPlain n → IsReadable (essid_line n)
unfolding skip_space lit
essid_line-IsReadable n p = (
  NoNewline-append (lit "                    ESSID:\"") (n ++ lit "\"")
      (one_line-NoNewline (lit "                    ESSID:\"") refl) (plain-NoNewline n p),
  cons-ne-nil _ _,
)

pub scan_lines-AllReadable : (ps : List AccessPoint) → IsScanned ps → AllReadable (scan_lines ps)
scan_lines-AllReadable [] s = tt
scan_lines-AllReadable (p ∷ ps) s =
    AllReadable-append (cell_lines p) (scan_lines ps)
      (
        cell_line-IsReadable p.address s.0.0,
        AllReadable-append p.details
            (key_line p.security ∷ essid_line p.name ∷ suites_line p.security)
            (IsQuiet-AllReadable p.details s.0.1)
            (
              key_line-IsReadable p.security,
              (essid_line-IsReadable p.name s.0.2, suites_line-AllReadable p.security),
            ),
      )
      (scan_lines-AllReadable ps s.1)
