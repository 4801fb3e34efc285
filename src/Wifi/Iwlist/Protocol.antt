-- ===== src/Wifi/Iwlist/Protocol.antt =====
-- The protocol of a cell, by its key and its lines about WPA2.
use webboot.Prelude.{
  true, Str, lit, text_eq, List, [], ◌∷◌, ◌++◌, Option, none, some, length, drop, ◌≡◌, refl, ap,
  ◌∙◌,
}
use webboot.Wifi.Option.{SecProto, wpa_psk, wpa_eap, not_supported_proto}
use webboot.Wifi.Regex.{
  Match, find_all, find, find_from, match_here, literal, skip_space, any_line, wpa2_re,
  auth_suites_re,
}
use webboot.Wifi.Regex.Lines.{AllReadable, unlines, found, find_from-found}
use webboot.Wifi.Regex.Local.{wpa2_re-IsLocal}
use webboot.Wifi.Iwlist.{
  proto_from, proto_in, suites_in, suite_of, second_field, trim, auth_of, auth_from, enc_key_opt_of,
}
use webboot.Wifi.Iwlist.Cells.{
  Security, open_cell, wep_cell, psk_cell, eap_cell, both_cell, AccessPoint, key_line, suites_line,
  cell_lines, protocol, IsCell,
}
use webboot.Wifi.Iwlist.Hits.{unlines-append}
use webboot.Wifi.Iwlist.Matches.{front, cell_lines-front, found-wpa2}

abbrev first_match : List Match → Option Match
first_match [] = none
first_match (m ∷ ms) = some m

first_cases : (ms : List Match) → (elim ms [ [] ↦ none | m ∷ ms ↦ some m ]) ≡ first_match ms
first_cases [] = refl
first_cases (m ∷ ms) = refl

find-first : (s : Str) → find wpa2_re s ≡ first_match (find_from wpa2_re 0 true 0 s)
unfolding find find_all
find-first s = first_cases (find_from wpa2_re 0 true 0 s)

pub drop-append : (s t : Str) → drop (length s) (s ++ t) ≡ t
drop-append [] t = refl
drop-append (c ∷ s) t = drop-append s t

suites_in-psk : suites_in (unlines (suites_line psk_cell)) ≡ some wpa_psk
unfolding auth_suites_re suites_in suite_of second_field trim find find_all find_from match_here
    literal skip_space any_line text_eq lit
suites_in-psk = refl

suites_in-eap : suites_in (unlines (suites_line eap_cell)) ≡ some wpa_eap
unfolding auth_suites_re suites_in suite_of second_field trim find find_all find_from match_here
    literal skip_space any_line text_eq lit
suites_in-eap = refl

suites_in-both : suites_in (unlines (suites_line both_cell)) ≡ some not_supported_proto
unfolding auth_suites_re suites_in suite_of second_field trim find find_all find_from match_here
    literal skip_space any_line text_eq lit
suites_in-both = refl

-- The protocol of a cell with a key.
abbrev keyed : Security → SecProto
keyed open_cell = not_supported_proto
keyed wep_cell = not_supported_proto
keyed psk_cell = wpa_psk
keyed eap_cell = wpa_eap
keyed both_cell = not_supported_proto

-- Behind the lines before them, the lines about WPA2 tell the protocol.
proto_from-suites_line :
    (before : Str) (s : Security)
    → proto_from
        (before ++ unlines (suites_line s))
        (first_match (found wpa2_re (length before) (suites_line s)))
      ≡ some (keyed s)
unfolding found wpa2_re literal skip_space lit
proto_from-suites_line before open_cell = refl
proto_from-suites_line before wep_cell = refl
proto_from-suites_line before psk_cell =
    ap suites_in (drop-append before (unlines (suites_line psk_cell))) ∙ suites_in-psk
proto_from-suites_line before eap_cell =
    ap suites_in (drop-append before (unlines (suites_line eap_cell))) ∙ suites_in-eap
proto_from-suites_line before both_cell =
    ap suites_in (drop-append before (unlines (suites_line both_cell))) ∙ suites_in-both

key_cases :
    (s : Security) (area : Str)
    → proto_in area ≡ some (keyed s)
    → auth_from area (enc_key_opt_of (key_line s)) ≡ some (protocol s)
unfolding enc_key_opt_of second_field trim text_eq lit
key_cases open_cell area h = refl
key_cases wep_cell area h = h
key_cases psk_cell area h = h
key_cases eap_cell area h = h
key_cases both_cell area h = h

proto_in-cell_lines :
    (p : AccessPoint)
    → IsCell p
    → AllReadable (cell_lines p)
    → proto_in (unlines (cell_lines p)) ≡ some (keyed p.security)
unfolding proto_in
proto_in-cell_lines p c r =
    let area = unlines (cell_lines p) in
    let split : area ≡ unlines (front p) ++ unlines (suites_line p.security) =
      ap unlines (cell_lines-front p) ∙ unlines-append (front p) (suites_line p.security) in
    ap (proto_from area) (
      find-first area
      ∙ ap first_match
          (find_from-found wpa2_re 0 (cell_lines p) wpa2_re-IsLocal r ∙ found-wpa2 p c))
    ∙ ap
        (λ s.
          proto_from s
            (first_match (found wpa2_re (length (unlines (front p))) (suites_line p.security))))
        split
    ∙ proto_from-suites_line (unlines (front p)) p.security

pub auth_of-cell_lines :
    (p : AccessPoint) (keys : List Str)
    → IsCell p
    → AllReadable (cell_lines p)
    → auth_of (unlines (cell_lines p)) (key_line p.security ∷ keys) ≡ some (protocol p.security)
unfolding auth_of
auth_of-cell_lines p keys c r =
    key_cases p.security (unlines (cell_lines p)) (proto_in-cell_lines p c r)
