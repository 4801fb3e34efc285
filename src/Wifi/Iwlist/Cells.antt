-- ===== src/Wifi/Iwlist/Cells.antt =====
-- What `iwlist` writes for the access points it sees: for each a line for the cell, the lines
-- `parseIwlistOut` does not look for, the encryption key, the name, and what the cell tells of WPA2.
use webboot.Prelude.{false, Str, lit, List, [], ◌∷◌, ◌++◌, none, ◌==◌, if◌then◌else◌, ◌≡◌}
use webboot.Wifi.Option.{SecProto, no_enc, wpa_psk, wpa_eap, not_supported_proto, Network}
use webboot.Wifi.Regex.{Body, cell_re, essid_re, enc_key_opt_re, wpa2_re}
use webboot.Wifi.Regex.Lines.{NoNewline, IsReadable, hit}
use webboot.Wifi.Iwlist.{contains}

-- No key; a key but no WPA2; WPA2 with its authentication suites.
pub data Security : Type 0 where
  open_cell wep_cell psk_cell eap_cell both_cell : Security

pub record AccessPoint : Type 0 where
  pub address : Str
  pub details : List Str
  pub name : Str
  pub security : Security

abbrev pub cell_line : Str → Str
cell_line address = lit "          Cell " ++ address

abbrev pub essid_line : Str → Str
essid_line name = lit "                    ESSID:\"" ++ name ++ lit "\""

abbrev pub key_line : Security → Str
key_line open_cell = lit "                    Encryption key:off"
key_line wep_cell = lit "                    Encryption key:on"
key_line psk_cell = lit "                    Encryption key:on"
key_line eap_cell = lit "                    Encryption key:on"
key_line both_cell = lit "                    Encryption key:on"

abbrev pub wpa2_lines : Str → List Str
wpa2_lines suites =
    lit "                    IE: IEEE 802.11i/WPA2 Version 1"
    ∷ lit "                        Group Cipher : CCMP"
    ∷ suites
    ∷ []

abbrev pub suites_line : Security → List Str
suites_line open_cell = []
suites_line wep_cell = []
suites_line psk_cell = wpa2_lines (lit "                        Authentication Suites (1) : PSK")
suites_line eap_cell = wpa2_lines (lit "                        Authentication Suites (1) : 802.1x")
suites_line both_cell =
    wpa2_lines (lit "                        Authentication Suites (2) : PSK 802.1x")

abbrev pub cell_lines : AccessPoint → List Str
cell_lines p =
    cell_line p.address ∷ p.details
    ++ key_line p.security ∷ essid_line p.name ∷ suites_line p.security

abbrev pub scan_lines : List AccessPoint → List Str
scan_lines [] = []
scan_lines (p ∷ ps) = cell_lines p ++ scan_lines ps

abbrev pub protocol : Security → SecProto
protocol open_cell = no_enc
protocol wep_cell = not_supported_proto
protocol psk_cell = wpa_psk
protocol eap_cell = wpa_eap
protocol both_cell = not_supported_proto

-- The access points as networks, the first of each name.
unfoldable pub networks : List Str → List AccessPoint → List Network
networks known [] = []
networks known (p ∷ ps) =
    let passed = networks known ps in
    let taken =
      record { essid = p.name; auth_suite = protocol p.security } ∷ networks (p.name ∷ known) ps in
    if contains p.name known then passed else taken

-- A name that the quotes and the colon of its line do not hide.
abbrev pub IsPlain : Str → Type 0
IsPlain [] = Unit
IsPlain (c ∷ s) =
    (((c == b'\n') ≡ false) × ((c == b':') ≡ false) × ((c == b'"') ≡ false)) × IsPlain s

pub data Pattern : Type 0 where
  cell_pattern essid_pattern key_pattern wpa2_pattern : Pattern

abbrev pub pattern_body : Pattern → Body
pattern_body cell_pattern = cell_re
pattern_body essid_pattern = essid_re
pattern_body key_pattern = enc_key_opt_re
pattern_body wpa2_pattern = wpa2_re

-- Lines without a match; authentication suites may be among them, such as those of an older WPA.
abbrev pub IsQuiet : List Str → Type 0
IsQuiet [] = Unit
IsQuiet (l ∷ ls) = (IsReadable l × ((p : Pattern) → hit (pattern_body p) l ≡ none)) × IsQuiet ls

abbrev pub IsCell : AccessPoint → Type 0
IsCell p = NoNewline p.address × IsQuiet p.details × IsPlain p.name

abbrev pub IsScanned : List AccessPoint → Type 0
IsScanned [] = Unit
IsScanned (p ∷ ps) = IsCell p × IsScanned ps
