-- ===== src/Wifi/Iwlist.antt =====
-- pkg/wifi/iwl.go: `parseIwlistOut`.
pub mod Lines
pub mod Firsts
pub mod Names
pub mod Cells
pub mod Hits
pub mod Shape
pub mod Readable
pub mod Matches
pub mod Protocol
pub mod RoundTrip
pub mod Fields
use webboot.Prelude.{
  ℕ, zero, suc, ◌+◌, ◌-◌, Bool, true, false, not, Str, lit, text_eq, List, [], ◌∷◌, ◌++◌, Option,
  none, some, length, take, drop, ◌||◌, ◌==◌, if◌then◌else◌, map,
}
use mathlib.Core.List.{reverse}
use webboot.Wifi.Option.{SecProto, no_enc, wpa_psk, wpa_eap, not_supported_proto, Network}
use webboot.Wifi.Regex.{
  Match, find_all, find, cell_re, essid_re, enc_key_opt_re, wpa2_re, auth_suites_re,
}

abbrev pub before_colon : Str → Str
before_colon [] = []
before_colon (c ∷ s) = let rest = c ∷ before_colon s in if c == b':' then [] else rest

-- `strings.Split(s, ":")[1]`, which panics if there is no colon.
unfoldable pub second_field : Str → Option Str
second_field [] = none
second_field (c ∷ s) =
    let rest = second_field s in if c == b':' then some (before_colon s) else rest

abbrev pub trim_left : (ℕ → Bool) → Str → Str
trim_left cut [] = []
trim_left cut (c ∷ s) = let rest = trim_left cut s in if cut c then rest else c ∷ s

-- `strings.Trim(s, cutset)`.
unfoldable pub trim : (ℕ → Bool) → Str → Str
trim cut s = reverse (trim_left cut (reverse (trim_left cut s)))

-- The name in an `ESSID` line.
unfoldable pub essid_of : Str → Option Str
unfolding second_field trim
essid_of line = elim (second_field line) [
  | none ↦ none
  | some f ↦ some (trim (λ c. c == b'"' || c == b'\n') f)
]

-- `on` or `off`.
unfoldable pub enc_key_opt_of : Str → Option Str
unfolding second_field trim
enc_key_opt_of line = elim (second_field line) [
  | none ↦ none
  | some f ↦ some (trim (λ c. c == b'\n') f)
]

-- The switch on the authentication suites.
unfoldable pub suite_of : Str → SecProto
suite_of suites =
    if text_eq suites (lit "PSK")
    then wpa_psk
    else if text_eq suites (lit "802.1x")
    then wpa_eap
    else not_supported_proto

abbrev pub text_of : Option Match → Str
text_of none = []
text_of (some m) = m.text

abbrev pub suites_from : Option Str → Option SecProto
suites_from none = none
suites_from (some f) = some (suite_of (trim (λ c. c == b'\n' || c == b' ') f))

-- The suites named behind the WPA2 line; no such line makes `Split(…)[1]` panic.
unfoldable pub suites_in : Str → Option SecProto
suites_in area = suites_from (second_field (text_of (find auth_suites_re area)))

abbrev pub proto_from : Str → Option Match → Option SecProto
proto_from area none = some not_supported_proto
proto_from area (some l) = suites_in (drop l.at area)

-- The protocol of an encrypted cell, by the text of its cell.
unfoldable pub proto_in : Str → Option SecProto
proto_in area = proto_from area (find wpa2_re area)

-- `o[start:end]`, where the last cell ends with the output.
abbrev pub cell_area : Str → Match → List Match → Str
cell_area o c [] = drop c.at o
cell_area o c (d ∷ cs) = take (d.at - c.at) (drop c.at o)

unfoldable pub contains : Str → List Str → Bool
contains e [] = false
contains e (x ∷ xs) = text_eq e x || contains e xs

abbrev pub auth_from : Str → Option Str → Option SecProto
auth_from area none = none
auth_from area (some opt) = if text_eq opt (lit "off") then some no_enc else proto_in area

-- `encKeyOpts[i]` and its switch: `none` is a panic.
unfoldable pub auth_of : Str → List Str → Option SecProto
auth_of area [] = none
auth_of area (k ∷ ks) = auth_from area (enc_key_opt_of k)

abbrev pub tail : List Str → List Str
tail [] = []
tail (x ∷ xs) = xs

abbrev pub prepend : Str → Option SecProto → Option (List Network) → Option (List Network)
prepend essid none rest = none
prepend essid (some a) none = none
prepend essid (some a) (some r) = some (record { essid = essid; auth_suite = a } ∷ r)

-- One round of the loop for a cell, by the name in its ESSID line, and the rest of the loop as a
-- function of the names known then. A known name is passed over.
abbrev pub round :
    List Str
    → Option Str
    → Option SecProto
    → (List Str → Option (List Network))
    → Option (List Network)
round known none auth rest = none
round known (some essid) auth rest =
    if contains essid known then rest known else prepend essid auth (rest (essid ∷ known))

-- The loop over the cells, with the ESSID and the encryption lines that are left; `none` where an
-- index is out of range.
unfoldable pub assemble : Str → List Str → List Match → List Str → List Str → Option (List Network)
assemble o known [] essids opts = some []
assemble o known (c ∷ cs) [] opts = none
assemble o known (c ∷ cs) (e ∷ es) opts =
    round known (essid_of e) (auth_of (cell_area o c cs) opts) (λ k. assemble o k cs es (tail opts))

-- The networks in the output of `iwlist`; `none` is a panic.
unfoldable pub parse_iwlist_out : Str → Option (List Network)
parse_iwlist_out o =
    assemble o [] (find_all cell_re o) (map (λ (m : Match). m.text) (find_all essid_re o))
      (map (λ (m : Match). m.text) (find_all enc_key_opt_re o))
