-- ===== src/Wifi/Iwlist/Matches.antt =====
-- The matches of the patterns in the lines of one cell and those of the cells behind it.
use webboot.Prelude.{
  ℕ, ◌+◌, Str, List, [], ◌∷◌, ◌++◌, length, append_assoc, ◌≡◌, sym, ap, ◌∙◌, arith,
}
use webboot.Wifi.Regex.{cell_re, essid_re, enc_key_opt_re, wpa2_re}
use webboot.Wifi.Regex.Lines.{unlines, found}
use webboot.Wifi.Iwlist.Cells.{
  AccessPoint, cell_line, essid_line, key_line, suites_line, cell_lines, IsCell, cell_pattern,
  essid_pattern, key_pattern, wpa2_pattern,
}
use webboot.Wifi.Iwlist.Hits.{Misses-append, IsQuiet-Misses, found-one, found-Misses}
use webboot.Wifi.Iwlist.Shape.{
  cell_text, cell_line-hit, essid_line-hit, key_line-hit, cell_line-Misses, essid_line-Misses,
  key_line-Misses, suites_line-Misses,
}

abbrev pub size : AccessPoint → ℕ
size p = length (unlines (cell_lines p))

-- The lines before the key, and before the name.
abbrev before_key : AccessPoint → List Str
before_key p = cell_line p.address ∷ p.details

abbrev before_essid : AccessPoint → List Str
before_essid p = before_key p ++ key_line p.security ∷ []

abbrev pub front : AccessPoint → List Str
front p = before_key p ++ key_line p.security ∷ essid_line p.name ∷ []

pub cell_lines-front : (p : AccessPoint) → cell_lines p ≡ front p ++ suites_line p.security
cell_lines-front p = sym (
    append_assoc (before_key p) (key_line p.security ∷ essid_line p.name ∷ [])
      (suites_line p.security))

cell_lines-before_essid :
    (p : AccessPoint) → before_essid p ++ essid_line p.name ∷ suites_line p.security ≡ cell_lines p
cell_lines-before_essid p =
    append_assoc (before_key p) (key_line p.security ∷ [])
      (essid_line p.name ∷ suites_line p.security)

pub found-cell :
    (pos : ℕ) (p : AccessPoint) (ns : List Str)
    → IsCell p
    → found cell_re pos (cell_lines p ++ ns)
      ≡ record { at = pos; text = cell_text p.address } ∷ found cell_re (pos + size p) ns
found-cell pos p ns c =
    let same : pos + 0 ≡ pos = omega arith in
    let details = IsQuiet-Misses cell_pattern p.details c.1 in
    found-one cell_re pos [] (cell_line p.address)
      (p.details ++ key_line p.security ∷ essid_line p.name ∷ suites_line p.security) ns
      (cell_text p.address) tt (cell_line-hit p.address)
      (Misses-append cell_re p.details _ details (
        (key_line-Misses p.security).0.0,
        ((essid_line-Misses p.name).0.0, (suites_line-Misses p.security).0),
      ))
    ∙ ap (λ i. record { at = i; text = cell_text p.address } ∷ found cell_re (pos + size p) ns) same

pub found-key :
    (pos : ℕ) (p : AccessPoint) (ns : List Str)
    → IsCell p
    → found enc_key_opt_re pos (cell_lines p ++ ns)
      ≡ record { at = pos + length (unlines (before_key p)); text = key_line p.security }
        ∷ found enc_key_opt_re (pos + size p) ns
found-key pos p ns c =
    found-one enc_key_opt_re pos (before_key p) (key_line p.security)
      (essid_line p.name ∷ suites_line p.security) ns (key_line p.security)
      ((cell_line-Misses p.address).0.0, IsQuiet-Misses key_pattern p.details c.1)
      (key_line-hit p.security) ((essid_line-Misses p.name).1.0, (suites_line-Misses p.security).2)

pub found-essid :
    (pos : ℕ) (p : AccessPoint) (ns : List Str)
    → IsCell p
    → found essid_re pos (cell_lines p ++ ns)
      ≡ record { at = pos + length (unlines (before_essid p)); text = essid_line p.name }
        ∷ found essid_re (pos + size p) ns
found-essid pos p ns c =
    let place = pos + length (unlines (before_essid p)) in
    let whole = cell_lines-before_essid p in
    ap (λ ls. found essid_re pos (ls ++ ns)) (sym whole)
    ∙ found-one essid_re pos (before_essid p) (essid_line p.name) (suites_line p.security) ns
        (essid_line p.name)
        (
          (cell_line-Misses p.address).1.0,
          Misses-append essid_re p.details (key_line p.security ∷ [])
              (IsQuiet-Misses essid_pattern p.details c.1) ((key_line-Misses p.security).1),
        )
        (essid_line-hit p.name c.2) (suites_line-Misses p.security).1
    ∙ ap
        (λ ls.
          record { at = place; text = essid_line p.name }
          ∷ found essid_re (pos + length (unlines ls)) ns)
        whole

pub found-wpa2 :
    (p : AccessPoint)
    → IsCell p
    → found wpa2_re 0 (cell_lines p)
      ≡ found wpa2_re (length (unlines (front p))) (suites_line p.security)
found-wpa2 p c =
    ap (found wpa2_re 0) (cell_lines-front p)
    ∙ found-Misses wpa2_re 0 (front p) (suites_line p.security) (
      (cell_line-Misses p.address).2.0,
      Misses-append wpa2_re p.details (key_line p.security ∷ essid_line p.name ∷ [])
          (IsQuiet-Misses wpa2_pattern p.details c.1)
          ((key_line-Misses p.security).2.0, (essid_line-Misses p.name).2),
    )
    ∙ ap (λ i. found wpa2_re i (suites_line p.security)) (omega arith)
