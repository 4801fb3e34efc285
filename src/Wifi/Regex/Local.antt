-- ===== src/Wifi/Regex/Local.antt =====
-- Every one of the five patterns stops at the end of the line.
use webboot.Prelude.{
  Str, lit, [], ◌∷◌, ◌++◌, Option, none, some, ◌==◌, ◌≡◌, refl, sym, ap, ◌∙◌, inl, inr, Bool-cases,
}
use webboot.Wifi.Regex.{
  literal, any_line, line_end, then_match, or_else, any_byte, cell_re, essid_re, enc_key_opt_re,
  wpa2_re, auth_suites_re,
}
use webboot.Wifi.Regex.Lines.{NoNewline, one_line-NoNewline, extended, IsLocal}

literal-local :
    (p l t : Str) → NoNewline p → NoNewline l → literal p (l ++ 10 ∷ t) ≡ extended t (literal p l)
unfolding literal
literal-local [] l t n m = refl
literal-local (x ∷ p) [] t n m = rw n.0 refl
literal-local (x ∷ p) (c ∷ l) t n m = elim (Bool-cases (x == c)) [
  | inl e ↦ rw e (literal-local p l t n.1 m.1)
  | inr e ↦ rw e refl
]

pub any_line-all : (l : Str) → NoNewline l → any_line l ≡ []
unfolding any_line
any_line-all [] n = refl
any_line-all (c ∷ l) n = rw n.0 (any_line-all l n.1)

any_line-local : (l t : Str) → NoNewline l → any_line (l ++ 10 ∷ t) ≡ 10 ∷ t
unfolding any_line
any_line-local [] t n = refl
any_line-local (c ∷ l) t n = rw n.0 (any_line-local l t n.1)

line_end-local : (l t : Str) → NoNewline l → line_end (l ++ 10 ∷ t) ≡ extended t (line_end l)
line_end-local [] t n = refl
line_end-local (c ∷ l) t n = rw n.0 refl

any_byte-local : (l t : Str) → NoNewline l → any_byte (l ++ 10 ∷ t) ≡ extended t (any_byte l)
any_byte-local [] t n = refl
any_byte-local (c ∷ l) t n = rw n.0 refl

-- A pattern behind another: what the first leaves has no newline either.
abbrev LeavesLine : Option Str → Type 0
LeavesLine none = Unit
LeavesLine (some r) = NoNewline r

literal-LeavesLine : (p l : Str) → NoNewline l → LeavesLine (literal p l)
unfolding literal
literal-LeavesLine [] l n = n
literal-LeavesLine (x ∷ p) [] n = tt
literal-LeavesLine (x ∷ p) (c ∷ l) n = elim (Bool-cases (x == c)) [
  | inl e ↦ rw e (literal-LeavesLine p l n.1)
  | inr e ↦ rw e tt
]

any_byte-LeavesLine : (l : Str) → NoNewline l → LeavesLine (any_byte l)
any_byte-LeavesLine [] n = tt
any_byte-LeavesLine (c ∷ l) n = rw n.0 n.1

then_match-local :
    (o : Option Str) (f : Str → Option Str) (t : Str)
    → LeavesLine o
    → ((r : Str) → NoNewline r → f (r ++ 10 ∷ t) ≡ extended t (f r))
    → then_match (extended t o) f ≡ extended t (then_match o f)
then_match-local none f t n h = refl
then_match-local (some r) f t n h = h r n

or_else-local :
    (o p : Option Str) (t : Str) → or_else (extended t o) (extended t p) ≡ extended t (or_else o p)
or_else-local none p t = refl
or_else-local (some r) p t = refl

-- A literal and another pattern behind it.
literal_then-local :
    (p : Str) (f : Str → Option Str) (l t : Str)
    → NoNewline p
    → NoNewline l
    → ((r : Str) → NoNewline r → f (r ++ 10 ∷ t) ≡ extended t (f r))
    → then_match (literal p (l ++ 10 ∷ t)) f ≡ extended t (then_match (literal p l) f)
literal_then-local p f l t n m h =
    ap (λ o. then_match o f) (literal-local p l t n m)
    ∙ then_match-local (literal p l) f t (literal-LeavesLine p l m) h

pub cell_re-IsLocal : IsLocal cell_re
unfolding cell_re lit
cell_re-IsLocal l t n = literal-local (lit "Cell") l t (one_line-NoNewline (lit "Cell") refl) n

pub essid_re-IsLocal : IsLocal essid_re
unfolding essid_re lit
essid_re-IsLocal l t n =
    literal_then-local (lit "ESSID") (λ r. some (any_line r)) l t
      (one_line-NoNewline (lit "ESSID") refl) n
      (λ r m. ap some (any_line-local r t m ∙ sym (ap (λ s. s ++ 10 ∷ t) (any_line-all r m))))

key_value-local :
    (p r t : Str)
    → NoNewline p
    → NoNewline r
    → then_match (literal p (r ++ 10 ∷ t)) line_end ≡ extended t (then_match (literal p r) line_end)
key_value-local p r t n m = literal_then-local p line_end r t n m (λ r' m'. line_end-local r' t m')

pub enc_key_opt_re-IsLocal : IsLocal enc_key_opt_re
unfolding enc_key_opt_re lit
enc_key_opt_re-IsLocal l t n =
    literal_then-local (lit "Encryption key:")
      (λ r.
        or_else (then_match (literal (lit "on") r) line_end)
          (then_match (literal (lit "off") r) line_end))
      l t (one_line-NoNewline (lit "Encryption key:") refl) n
      (λ r m.
        rw
          (
            key_value-local (lit "on") r t (refl, (refl, tt)) m,
            key_value-local (lit "off") r t (refl, (refl, (refl, tt))) m,
          )
          (or_else-local (then_match (literal (lit "on") r) line_end)
            (then_match (literal (lit "off") r) line_end) t))

pub auth_suites_re-IsLocal : IsLocal auth_suites_re
unfolding auth_suites_re lit
auth_suites_re-IsLocal l t n =
    literal_then-local (lit "Authentication Suites ") (λ r. some (any_line r)) l t
      (one_line-NoNewline (lit "Authentication Suites ") refl) n
      (λ r m. ap some (any_line-local r t m ∙ sym (ap (λ s. s ++ 10 ∷ t) (any_line-all r m))))

pub wpa2_re-IsLocal : IsLocal wpa2_re
unfolding wpa2_re lit
wpa2_re-IsLocal l t n =
    literal_then-local (lit "IE: IEEE 802")
      (λ r.
        then_match (any_byte r) (λ r'. then_match (literal (lit "11i/WPA2 Version 1") r') line_end))
      l t (one_line-NoNewline (lit "IE: IEEE 802") refl) n
      (λ r m.
        ap (λ o. then_match o (λ r'. then_match (literal (lit "11i/WPA2 Version 1") r') line_end))
          (any_byte-local r t m)
        ∙ then_match-local (any_byte r)
            (λ r'. then_match (literal (lit "11i/WPA2 Version 1") r') line_end) t
            (any_byte-LeavesLine r m)
            (λ r' m'.
              key_value-local (lit "11i/WPA2 Version 1") r' t
                (one_line-NoNewline (lit "11i/WPA2 Version 1") refl) m'))
