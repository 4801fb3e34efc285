-- ===== src/Wifi/Iwlist/Names.antt =====
-- The names of the networks that `parseIwlistOut` returns.
use webboot.Prelude.{
  Str, lit, text_eq, List, [], ◌∷◌, ◌≡◌, refl, sym, ap, ◌∙◌, arith, Option, none, some, map,
  Bool-cases, inl, inr, drop,
}
use webboot.Wifi.Iwlist.Firsts.{firsts, Distinct, contains-firsts, firsts-Distinct}
use webboot.Wifi.Iwlist.Lines.{IsNameIn, essid_of-IsNameIn}
use webboot.Wifi.Option.{SecProto, Network}
use webboot.Wifi.Regex.{
  Match, find_all, find, cell_re, essid_re, enc_key_opt_re, wpa2_re, auth_suites_re,
}
use webboot.Wifi.Iwlist.{
  essid_of, enc_key_opt_of, contains, tail, prepend, text_of, suites_from, proto_from, auth_from,
  second_field, round, assemble, auth_of, cell_area, parse_iwlist_out, proto_in, suites_in,
}

abbrev pub name_in : Option Str → Str
name_in none = []
name_in (some n) = n

-- The names in the ESSID lines, one line for each cell.
abbrev pub cell_names : List Match → List Str → List Str
cell_names [] es = []
cell_names (c ∷ cs) [] = []
cell_names (c ∷ cs) (e ∷ es) = name_in (essid_of e) ∷ cell_names cs es

abbrev pub names : List Network → List Str
names [] = []
names (n ∷ r) = n.essid ∷ names r

abbrev names_of : Option (List Network) → List Str
names_of none = []
names_of (some r) = names r

prepend-names :
    (essid : Str) (auth : Option SecProto) (rest : Option (List Network)) (ns : List Str)
    (r : List Network)
    → ((q : List Network) → rest ≡ some q → names q ≡ ns)
    → prepend essid auth rest ≡ some r
    → names r ≡ essid ∷ ns
prepend-names essid none rest ns r ih h = cc
prepend-names essid (some a) none ns r ih h = cc
prepend-names essid (some a) (some q) ns r ih h =
    ap names_of (sym h) ∙ ap (λ l. essid ∷ l) (ih q refl)

round-names :
    (known : List Str) (n : Option Str) (auth : Option SecProto)
    (rest : List Str → Option (List Network)) (es : List Str) (r : List Network)
    → ((k : List Str) (q : List Network) → rest k ≡ some q → names q ≡ firsts k es)
    → round known n auth rest ≡ some r
    → names r ≡ firsts known (name_in n ∷ es)
unfolding firsts
round-names known none auth rest es r ih h = cc
round-names known (some e) auth rest es r ih h = elim (Bool-cases (contains e known)) [
  | inl old ↦ rw (old, firsts) (ih known r (rw (old, round) at h))
  | inr new ↦
      rw (new, firsts)
        (prepend-names e auth (rest (e ∷ known)) _ r (ih (e ∷ known)) (rw (new, round) at h))
]

assemble-names :
    (o : Str) (known : List Str) (cs : List Match) (es opts : List Str) (r : List Network)
    → assemble o known cs es opts ≡ some r
    → names r ≡ firsts known (cell_names cs es)
unfolding assemble firsts
assemble-names o known [] es opts r h = ap names_of (sym h)
assemble-names o known (c ∷ cs) [] opts r h = cc
assemble-names o known (c ∷ cs) (e ∷ es) opts r h =
    round-names known (essid_of e) _ _ (cell_names cs es) r
      (λ k q p. assemble-names o k cs es (tail opts) q p) h

abbrev pub essid_lines : Str → List Str
essid_lines o = map (λ (m : Match). m.text) (find_all essid_re o)

abbrev pub opt_lines : Str → List Str
opt_lines o = map (λ (m : Match). m.text) (find_all enc_key_opt_re o)

-- One name for each cell: the name in the ESSID line of the cell.
abbrev pub AllNamed : List Match → List Str → List Str → Type 0
AllNamed [] es [] = Unit
AllNamed [] es (n ∷ ns) = ⊥
AllNamed (c ∷ cs) (e ∷ es) (n ∷ ns) = IsNameIn e n × AllNamed cs es ns
AllNamed (c ∷ cs) [] ns = ⊥
AllNamed (c ∷ cs) (e ∷ es) [] = ⊥

prepend-some :
    (essid : Str) (auth : Option SecProto) (rest : Option (List Network)) {r : List Network}
    → prepend essid auth rest ≡ some r
    → (q : List Network) × (rest ≡ some q)
prepend-some essid none rest h = cc
prepend-some essid (some a) none h = cc
prepend-some essid (some a) (some q) h = (q, refl)

-- A round that does not panic has a name, and a rest that does not panic.
round-some :
    (known : List Str) (n : Option Str) (auth : Option SecProto)
    (rest : List Str → Option (List Network)) {r : List Network}
    → round known n auth rest ≡ some r
    → (essid : Str) × (k : List Str) × (q : List Network) × (n ≡ some essid) × (rest k ≡ some q)
round-some known none auth rest {r} h = let no : none ≡ some r = h in cc
round-some known (some e) auth rest h = elim (Bool-cases (contains e known)) [
  | inl old ↦ (e, known, _, refl, rw (old, round) at h)
  | inr new ↦
      let (q, k) = prepend-some e auth (rest (e ∷ known)) (rw (new, round) at h) in
      (e, e ∷ known, q, refl, k)
]

assemble-AllNamed :
    (o : Str) (known : List Str) (cs : List Match) (es opts : List Str) (r : List Network)
    → assemble o known cs es opts ≡ some r
    → AllNamed cs es (cell_names cs es)
unfolding assemble
assemble-AllNamed o known [] es opts r h = tt
assemble-AllNamed o known (c ∷ cs) [] opts r h = let no : none ≡ some r = h in cc
assemble-AllNamed o known (c ∷ cs) (e ∷ es) opts r h =
    let (essid, k, q, named, rest) =
      round-some known (essid_of e) (auth_of (cell_area o c cs) opts)
        (λ k. assemble o k cs es (tail opts)) h in
    (rw named (essid_of-IsNameIn e essid named), assemble-AllNamed o k cs es (tail opts) q rest)

-- If parsing the output of `iwlist` does not panic, then there is one name for each cell, which stands in the ESSID line of the cell behind the first colon, up to the next colon or the end of the line, less the quotes and newlines at its ends; no two networks have one name, and their names are those of the cells, each where it stands first.
pub parse_iwlist_out-names :
    (o : Str) (r : List Network)
    → parse_iwlist_out o ≡ some r
    → (ns : List Str) × AllNamed (find_all cell_re o) (essid_lines o) ns
      × Distinct (names r)
      × (names r ≡ firsts [] ns)
      × ((n : Str) → contains n (names r) ≡ contains n ns)
unfolding parse_iwlist_out
parse_iwlist_out-names o r h =
    let cells = cell_names (find_all cell_re o) (essid_lines o) in
    let named = assemble-names o [] (find_all cell_re o) (essid_lines o) _ r h in
    (
      cells,
      assemble-AllNamed o [] (find_all cell_re o) (essid_lines o) _ r h,
      rw named (firsts-Distinct [] cells),
      named,
      λ n. rw named (contains-firsts n [] cells ∙ unfold contains in ground arith),
    )

ap₃ :
    {A B C D : Type 0} (f : A → B → C → D) {a a' : A} {b b' : B} {c c' : C}
    → a ≡ a'
    → b ≡ b'
    → c ≡ c'
    → f a b c ≡ f a' b' c'
ap₃ f p q r = λ i. f (p i) (q i) (r i)

auth_of_panics :
    (area k : Str) (ks : List Str) (l : Match)
    → enc_key_opt_of k ≡ some (lit "on")
    → find wpa2_re area ≡ some l
    → find auth_suites_re (drop l.at area) ≡ none
    → auth_of area (k ∷ ks) ≡ none
unfolding auth_of proto_in suites_in second_field text_eq lit
auth_of_panics area k ks l ho hl ha =
    ap (auth_from area) ho
    ∙ ap (proto_from area) hl
    ∙ ap (λ m. suites_from (second_field (text_of m))) ha

-- An encrypted first cell with a WPA2 line, and no line of authentication suites behind it in the
-- cell, makes the parser panic, whatever the other cells hold.
pub parse_iwlist_out_panics :
    (o name : Str) (c : Match) (cs : List Match) (e k : Str) (es ks : List Str) (l : Match)
    → find_all cell_re o ≡ c ∷ cs
    → essid_lines o ≡ e ∷ es
    → opt_lines o ≡ k ∷ ks
    → essid_of e ≡ some name
    → enc_key_opt_of k ≡ some (lit "on")
    → find wpa2_re (cell_area o c cs) ≡ some l
    → find auth_suites_re (drop l.at (cell_area o c cs)) ≡ none
    → parse_iwlist_out o ≡ none
unfolding parse_iwlist_out assemble contains
parse_iwlist_out_panics o name c cs e k es ks l hc he hk hn ho hl ha =
    ap₃ (assemble o []) hc he hk
    ∙ ap
        (λ n.
          round [] n (auth_of (cell_area o c cs) (k ∷ ks))
            (λ x. assemble o x cs es (tail (k ∷ ks))))
        hn
    ∙ ap (λ a. prepend name a (assemble o (name ∷ []) cs es (tail (k ∷ ks))))
        (auth_of_panics (cell_area o c cs) k ks l ho hl ha)
