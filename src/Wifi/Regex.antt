-- ===== src/Wifi/Regex.antt =====
-- pkg/wifi/iwl.go: the five regular expressions over the output of `iwlist`, all of the form
-- `(?m)^\s*…`, and `FindAllIndex`, `FindAll`, `FindIndex` and `Find` for them. Text is bytes, so
-- the dot of `802.11i` stands for one byte.
pub mod Lines
pub mod Local
use webboot.Prelude.{
  ℕ, zero, suc, ◌+◌, ◌-◌, Bool, true, false, Str, lit, List, [], ◌∷◌, Option, none, some, length,
  take, ◌||◌, ◌==◌, if◌then◌else◌,
}

-- The class `\s`.
abbrev pub is_space : ℕ → Bool
is_space c = c == b' ' || c == b'\t' || c == b'\n' || c == 12 || c == b'\r'

unfoldable pub skip_space : Str → Str
skip_space [] = []
skip_space (c ∷ s) = let rest = skip_space s in if is_space c then rest else c ∷ s

-- The text behind a literal, if the text begins with it.
unfoldable pub literal : Str → Str → Option Str
literal [] s = some s
literal (p ∷ ps) [] = none
literal (p ∷ ps) (c ∷ s) = let rest = literal ps s in if p == c then rest else none

-- `.*` takes the rest of the line.
unfoldable pub any_line : Str → Str
any_line [] = []
any_line (c ∷ s) = let rest = any_line s in if c == b'\n' then c ∷ s else rest

-- `$` stands before a newline or at the end.
abbrev pub line_end : Str → Option Str
line_end [] = some []
line_end (c ∷ s) = if c == b'\n' then some (c ∷ s) else none

abbrev pub then_match : Option Str → (Str → Option Str) → Option Str
then_match none f = none
then_match (some s) f = f s

-- What a pattern leaves of a text that it matches, behind `^\s*`.
abbrev pub Body : Type 0
Body = Str → Option Str

unfoldable pub cell_re : Body
cell_re s = literal (lit "Cell") s

unfoldable pub essid_re : Body
essid_re s = then_match (literal (lit "ESSID") s) (λ r. some (any_line r))

abbrev pub or_else : Option Str → Option Str → Option Str
or_else (some r) o = some r
or_else none o = o

unfoldable pub enc_key_opt_re : Body
enc_key_opt_re s = then_match (literal (lit "Encryption key:") s) (λ r.
    or_else (then_match (literal (lit "on") r) line_end)
      (then_match (literal (lit "off") r) line_end))

abbrev pub any_byte : Str → Option Str
any_byte [] = none
any_byte (c ∷ s) = if c == b'\n' then none else some s

unfoldable pub wpa2_re : Body
wpa2_re s = then_match (literal (lit "IE: IEEE 802") s) (λ r.
    then_match (any_byte r) (λ r'. then_match (literal (lit "11i/WPA2 Version 1") r') line_end))

unfoldable pub auth_suites_re : Body
auth_suites_re s = then_match (literal (lit "Authentication Suites ") s) (λ r. some (any_line r))

-- A match begins at a place, and has a text.
pub record Match : Type 0 where
  pub at : ℕ
  pub text : Str

abbrev pub matched : Str → Option Str → Option Str
matched s none = none
matched s (some rest) = some (take (length s - length rest) s)

-- The match that begins here: never within another match, nor away from the start of a line.
unfoldable pub match_here : Body → ℕ → Bool → Str → Option Str
match_here body (suc skip) start s = none
match_here body zero false s = none
match_here body zero true s = matched s (body (skip_space s))

-- All matches from left to right, none within another: `skip` bytes are taken by the last match,
-- and `start` says whether a line begins here.
unfoldable pub find_from : Body → ℕ → Bool → ℕ → Str → List Match
unfolding match_here skip_space
find_from body skip start pos [] = []
find_from body skip start pos (c ∷ s) = elim (match_here body skip start (c ∷ s)) [
  | none ↦ find_from body (skip - 1) (c == b'\n') (pos + 1) s
  | some t ↦ record { at = pos; text = t } ∷ find_from body (length t - 1) (c == b'\n') (pos + 1) s
]

unfoldable pub find_all : Body → Str → List Match
unfolding find_from
find_all body s = find_from body 0 true 0 s

-- The first match.
unfoldable pub find : Body → Str → Option Match
unfolding find_all
find body s = elim (find_all body s) [ [] ↦ none | m ∷ ms ↦ some m ]
