-- ===== src/Wifi/Iwlist/RoundTrip.antt =====
-- `parseIwlistOut` reads what `iwlist` writes.
use webboot.Prelude.{
  ℕ, ◌+◌, ◌-◌, Str, List, [], ◌∷◌, ◌++◌, Option, some, length, length-append, append_assoc,
  append-nil, take, drop, map, ◌≡◌, refl, sym, ap, ◌∙◌, arith, Bool-cases, inl, inr,
}
use webboot.Wifi.Option.{Network}
use webboot.Wifi.Regex.{Match, find_all, cell_re, essid_re, enc_key_opt_re}
use webboot.Wifi.Regex.Lines.{AllReadable, unlines, found, find_from-found}
use webboot.Wifi.Regex.Local.{cell_re-IsLocal, essid_re-IsLocal, enc_key_opt_re-IsLocal}
use webboot.Wifi.Iwlist.{auth_of, cell_area, contains, round, prepend, assemble, parse_iwlist_out}
use webboot.Wifi.Iwlist.Cells.{
  AccessPoint, essid_line, key_line, cell_lines, scan_lines, protocol, networks, IsCell, IsScanned,
}
use webboot.Wifi.Iwlist.Hits.{unlines-append}
use webboot.Wifi.Iwlist.Fields.{essid_of-essid_line}
use webboot.Wifi.Iwlist.Shape.{cell_text}
use webboot.Wifi.Iwlist.Readable.{scan_lines-AllReadable}
use webboot.Wifi.Iwlist.Matches.{size, found-cell, found-key, found-essid}
use webboot.Wifi.Iwlist.Protocol.{drop-append, auth_of-cell_lines}

take-front : (s t : Str) → take (length s) (s ++ t) ≡ s
take-front [] t = refl
take-front (c ∷ s) t = ap (◌∷◌ c) (take-front s t)

abbrev texts : List Match → List Str
texts ms = map (λ (m : Match). m.text) ms

AllReadable-front : (ls ms : List Str) → AllReadable (ls ++ ms) → AllReadable ls
AllReadable-front [] ms r = tt
AllReadable-front (l ∷ ls) ms r = (r.0, AllReadable-front ls ms r.1)

-- The text of a cell reaches to the next cell, or to the end of the output.
cell_area-cell_lines :
    (pre : Str) (p : AccessPoint) (ps : List AccessPoint)
    → IsScanned ps
    → cell_area
        (pre ++ unlines (scan_lines (p ∷ ps)))
        (record { at = length pre; text = cell_text p.address })
        (found cell_re (length pre + size p) (scan_lines ps))
      ≡ unlines (cell_lines p)
unfolding found
cell_area-cell_lines pre p [] s =
    drop-append pre (unlines (cell_lines p ++ [])) ∙ ap unlines (append-nil (cell_lines p))
cell_area-cell_lines pre p (q ∷ qs) s =
    let here : Match = record { at = length pre; text = cell_text p.address } in
    let o = pre ++ unlines (scan_lines (p ∷ q ∷ qs)) in
    let width : length pre + size p - length pre ≡ size p = omega arith in
    ap (cell_area o here) (found-cell (length pre + size p) q (scan_lines qs) s.0)
    ∙ ap (λ n. take n (drop (length pre) o)) width
    ∙ ap (take (size p)) (
        drop-append pre (unlines (scan_lines (p ∷ q ∷ qs)))
        ∙ unlines-append (cell_lines p) (scan_lines (q ∷ qs)))
    ∙ take-front (unlines (cell_lines p)) (unlines (scan_lines (q ∷ qs)))

-- A round for a cell, once the rest of the loop is known.
round-networks :
    (known : List Str) (p : AccessPoint) (ps : List AccessPoint)
    (rest : List Str → Option (List Network))
    → ((k : List Str) → rest k ≡ some (networks k ps))
    → round known (some p.name) (some (protocol p.security)) rest ≡ some (networks known (p ∷ ps))
unfolding networks
round-networks known p ps rest h = elim (Bool-cases (contains p.name known)) [
  | inl e ↦ rw e (h known)
  | inr e ↦ rw e (ap (prepend p.name (some (protocol p.security))) (h (p.name ∷ known)))
]

-- The cell at the front of the output is read by itself.
auth_of-front :
    (o pre : Str) (pos : ℕ) (p : AccessPoint) (ps : List AccessPoint) (keys : List Str)
    → o ≡ pre ++ unlines (scan_lines (p ∷ ps))
    → pos ≡ length pre
    → IsScanned (p ∷ ps)
    → auth_of
        (cell_area o
          (record { at = pos; text = cell_text p.address })
          (found cell_re (pos + size p) (scan_lines ps)))
        (key_line p.security ∷ keys)
      ≡ some (protocol p.security)
auth_of-front o pre pos p ps keys w h s =
    let readable =
      AllReadable-front (cell_lines p) (scan_lines ps) (scan_lines-AllReadable (p ∷ ps) s) in
    ap (λ area. auth_of area (key_line p.security ∷ keys))
      (ap
          (λ x.
            cell_area x (record { at = pos; text = cell_text p.address })
              (found cell_re (pos + size p) (scan_lines ps)))
          w
        ∙ ap
            (λ i.
              cell_area (pre ++ unlines (scan_lines (p ∷ ps)))
                (record { at = i; text = cell_text p.address })
                (found cell_re (i + size p) (scan_lines ps)))
            h
        ∙ cell_area-cell_lines pre p ps s.1)
    ∙ auth_of-cell_lines p keys s.0 readable

-- The loop over the matches in the rest of the output.
abbrev assembled : Str → ℕ → List Str → List Str → Option (List Network)
assembled o pos ls known =
    assemble o known (found cell_re pos ls) (texts (found essid_re pos ls))
      (texts (found enc_key_opt_re pos ls))

assembled-round :
    (o : Str) (pos : ℕ) (known : List Str) (p : AccessPoint) (ns : List Str)
    → IsCell p
    → assembled o pos (cell_lines p ++ ns) known
      ≡ round known
          (some p.name)
          (auth_of
            (cell_area o
              (record { at = pos; text = cell_text p.address })
              (found cell_re (pos + size p) ns))
            (key_line p.security ∷ texts (found enc_key_opt_re (pos + size p) ns)))
          (assembled o (pos + size p) ns)
unfolding assemble
assembled-round o pos known p ns c =
    let ls = cell_lines p ++ ns in
    let here : Match = record { at = pos; text = cell_text p.address } in
    let cells = found cell_re (pos + size p) ns in
    let names = texts (found essid_re (pos + size p) ns) in
    let keys = texts (found enc_key_opt_re (pos + size p) ns) in
    ap
      (λ cs.
        assemble o known cs (texts (found essid_re pos ls)) (texts (found enc_key_opt_re pos ls)))
      (found-cell pos p ns c)
    ∙ ap (λ es. assemble o known (here ∷ cells) (texts es) (texts (found enc_key_opt_re pos ls)))
        (found-essid pos p ns c)
    ∙ ap (λ ks. assemble o known (here ∷ cells) (essid_line p.name ∷ names) (texts ks))
        (found-key pos p ns c)
    ∙ ap
        (λ e.
          round known e (auth_of (cell_area o here cells) (key_line p.security ∷ keys))
            (assembled o (pos + size p) ns))
        (essid_of-essid_line p.name c.2)

assembled-networks :
    (o pre : Str) (pos : ℕ) (ps : List AccessPoint) (known : List Str)
    → o ≡ pre ++ unlines (scan_lines ps)
    → pos ≡ length pre
    → IsScanned ps
    → assembled o pos (scan_lines ps) known ≡ some (networks known ps)
unfolding assemble found networks
assembled-networks o pre pos [] known w h s = refl
assembled-networks o pre pos (p ∷ ps) known w h s =
    let read = unlines (cell_lines p) in
    let w' : o ≡ (pre ++ read) ++ unlines (scan_lines ps) =
      w
      ∙ ap (◌++◌ pre) (unlines-append (cell_lines p) (scan_lines ps))
      ∙ sym (append_assoc pre read (unlines (scan_lines ps))) in
    let h' : pos + size p ≡ length (pre ++ read) = omega (arith, h, length-append pre read) in
    assembled-round o pos known p (scan_lines ps) s.0
    ∙ ap (λ a. round known (some p.name) a (assembled o (pos + size p) (scan_lines ps)))
        (auth_of-front o pre pos p ps (texts (found enc_key_opt_re (pos + size p) (scan_lines ps)))
          w h s)
    ∙ round-networks known p ps (assembled o (pos + size p) (scan_lines ps))
        (λ k. assembled-networks o (pre ++ read) (pos + size p) ps k w' h' s.1)

-- Reading what is written for a list of access points gives back, in order, the first access point
-- of each name, with its name and the protocol of its security: if no name has a newline, a colon
-- or a double quote, no address has a newline, and the other lines of a cell are not blank and
-- match none of the patterns for a cell, a name, a key and WPA2.
pub parse_iwlist_out-scan_lines :
    (ps : List AccessPoint)
    → IsScanned ps
    → parse_iwlist_out (unlines (scan_lines ps)) ≡ some (networks [] ps)
unfolding parse_iwlist_out find_all
parse_iwlist_out-scan_lines ps s =
    let o = unlines (scan_lines ps) in
    let readable = scan_lines-AllReadable ps s in
    ap (λ cs. assemble o [] cs (texts (find_all essid_re o)) (texts (find_all enc_key_opt_re o)))
      (find_from-found cell_re 0 (scan_lines ps) cell_re-IsLocal readable)
    ∙ ap
        (λ es.
          assemble o [] (found cell_re 0 (scan_lines ps)) (texts es)
            (texts (find_all enc_key_opt_re o)))
        (find_from-found essid_re 0 (scan_lines ps) essid_re-IsLocal readable)
    ∙ ap
        (λ ks.
          assemble o [] (found cell_re 0 (scan_lines ps)) (texts (found essid_re 0 (scan_lines ps)))
            (texts ks))
        (find_from-found enc_key_opt_re 0 (scan_lines ps) enc_key_opt_re-IsLocal readable)
    ∙ assembled-networks o [] 0 ps [] refl refl s
