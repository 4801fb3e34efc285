-- ===== src/Wifi/Regex/Lines.antt =====
-- The five regular expressions look at one line at a time.
use mathlib.Core.Option.{some-injective}
use webboot.Prelude.{
  ℕ, zero, suc, ◌+◌, ◌-◌, ◌≤◌, Bool, true, false, Str, List, [], ◌∷◌, ◌++◌, Option, none, some,
  length, take, length-append, length-take, ◌==◌, ◌≡◌, ◌≢◌, refl, ap, ◌∙◌, inl, inr, arith,
  Bool-cases, if◌then◌else◌,
}
use webboot.Wifi.Regex.{Body, Match, is_space, skip_space, matched, match_here, find_from}

abbrev pub NoNewline : Str → Type 0
NoNewline [] = Unit
NoNewline (c ∷ s) = ((c == b'\n') ≡ false) × NoNewline s

abbrev pub one_line : Str → Bool
one_line [] = true
one_line (c ∷ s) = let rest = one_line s in if c == b'\n' then false else rest

-- For a closed text the test decides.
pub one_line-NoNewline : (s : Str) → one_line s ≡ true → NoNewline s
one_line-NoNewline [] h = tt
one_line-NoNewline (c ∷ s) h = elim (Bool-cases (c == b'\n')) [
  | inl e ↦ let refused : false ≡ true = rw e at h in cc
  | inr e ↦ (e, one_line-NoNewline s (rw e at h))
]

-- A line with something other than white space.
abbrev pub IsReadable : Str → Type 0
IsReadable l = NoNewline l × (skip_space l ≢ [])

abbrev pub AllReadable : List Str → Type 0
AllReadable [] = Unit
AllReadable (l ∷ ls) = IsReadable l × AllReadable ls

-- Every line with its newline.
abbrev pub unlines : List Str → Str
unlines [] = []
unlines (l ∷ ls) = l ++ 10 ∷ unlines ls

-- The match of a line taken alone.
abbrev pub hit : Body → Str → Option Str
hit body l = matched l (body (skip_space l))

abbrev pub with_hit : ℕ → Option Str → List Match → List Match
with_hit pos none rest = rest
with_hit pos (some t) rest = record { at = pos; text = t } ∷ rest

-- The matches of the lines, each at the place where its line begins.
unfoldable pub found : Body → ℕ → List Str → List Match
found body pos [] = []
found body pos (l ∷ ls) = with_hit pos (hit body l) (found body (pos + length l + 1) ls)

-- What a pattern leaves of a line is the same before a newline and more text.
abbrev pub extended : Str → Option Str → Option Str
extended t none = none
extended t (some r) = some (r ++ 10 ∷ t)

abbrev pub IsLocal : Body → Type 0
IsLocal body = (l t : Str) → NoNewline l → body (l ++ 10 ∷ t) ≡ extended t (body l)

match_here_inside : (body : Body) (k : ℕ) (s : Str) → match_here body k false s ≡ none
unfolding match_here
match_here_inside body zero s = refl
match_here_inside body (suc k) s = refl

step_inside :
    (body : Body) (k pos c : ℕ) (s : Str)
    → find_from body k false pos (c ∷ s) ≡ find_from body (k - 1) (c == 10) (pos + 1) s
unfolding find_from
step_inside body k pos c s = rw (match_here_inside body k (c ∷ s), find_from) refl

-- Within a line nothing matches, and what a match has taken ends with the line.
skip_line :
    (body : Body) (l : Str) (k pos : ℕ) (t : Str)
    → NoNewline l
    → k ≤ length l
    → find_from body k false pos (l ++ 10 ∷ t) ≡ find_from body 0 true (pos + length l + 1) t
unfolding find_from
skip_line body [] k pos t n h =
    let taken : k - 1 ≡ 0 = omega arith in
    let same : pos + 1 ≡ pos + 0 + 1 = omega arith in
    step_inside body k pos 10 t
    ∙ ap (λ i. find_from body i true (pos + 1) t) taken
    ∙ ap (λ i. find_from body 0 true i t) same
skip_line body (c ∷ l) k pos t n h =
    let same : pos + 1 + length l + 1 ≡ pos + suc (length l) + 1 = omega arith in
    step_inside body k pos c (l ++ 10 ∷ t)
    ∙ ap (λ b. find_from body (k - 1) b (pos + 1) (l ++ 10 ∷ t)) n.0
    ∙ skip_line body l (k - 1) (pos + 1) t n.1 (omega arith)
    ∙ ap (λ i. find_from body 0 true i t) same

skip_space-append : (l t : Str) → skip_space l ≢ [] → skip_space (l ++ t) ≡ skip_space l ++ t
unfolding skip_space
skip_space-append [] t h = absurd (h refl)
skip_space-append (c ∷ l) t h = elim (Bool-cases (is_space c)) [
  | inl s ↦ rw s (skip_space-append l t (rw (s, skip_space) at h))
  | inr s ↦ rw s refl
]

skip_space-NoNewline : (l : Str) → NoNewline l → NoNewline (skip_space l)
unfolding skip_space
skip_space-NoNewline [] h = tt
skip_space-NoNewline (c ∷ l) h = elim (Bool-cases (is_space c)) [
  | inl s ↦ rw (s, skip_space) (skip_space-NoNewline l h.1)
  | inr s ↦ rw (s, skip_space) h
]

length-extended : (l r t : Str) → length (l ++ 10 ∷ t) - length (r ++ 10 ∷ t) ≡ length l - length r
length-extended l r t = omega (arith, length-append l (10 ∷ t), length-append r (10 ∷ t))

take-append : (n : ℕ) (l t : Str) → n ≤ length l → take n (l ++ t) ≡ take n l
take-append zero l t h = refl
take-append (suc n) [] t h = absurd (omega arith)
take-append (suc n) (c ∷ l) t h = ap (◌∷◌ c) (take-append n l t (omega arith))

matched-extended : (l t : Str) (o : Option Str) → matched (l ++ 10 ∷ t) (extended t o) ≡ matched l o
matched-extended l t none = refl
matched-extended l t (some r) = ap some (
    ap (λ n. take n (l ++ 10 ∷ t)) (length-extended l r t)
    ∙ take-append (length l - length r) l (10 ∷ t) (omega arith))

hit-local :
    (body : Body) (l t : Str)
    → IsLocal body
    → IsReadable l
    → matched (l ++ 10 ∷ t) (body (skip_space (l ++ 10 ∷ t))) ≡ hit body l
hit-local body l t loc (n, r) =
    ap (λ s. matched (l ++ 10 ∷ t) (body s)) (skip_space-append l (10 ∷ t) r)
    ∙ ap (matched (l ++ 10 ∷ t)) (loc (skip_space l) t (skip_space-NoNewline l n))
    ∙ matched-extended l t (body (skip_space l))

matched-le : (l : Str) (o : Option Str) {m : Str} → matched l o ≡ some m → length m ≤ length l
matched-le l none h = cc
matched-le l (some r) h =
    let e = ap length (some-injective _ _ h) in
    omega (arith, length-take (length l - length r) l, e)

-- The scan behind what was found at a place.
abbrev scan_on : Body → ℕ → ℕ → Str → Option Str → List Match
scan_on body c pos s none = find_from body 0 (c == 10) (pos + 1) s
scan_on body c pos s (some t) =
    record { at = pos; text = t } ∷ find_from body (length t - 1) (c == 10) (pos + 1) s

scan_cases :
    (body : Body) (c pos : ℕ) (s : Str) (o : Option Str)
    → (elim o [
      | none ↦ find_from body (0 - 1) (c == b'\n') (pos + 1) s
      | some t ↦
          record { at = pos; text = t } ∷ find_from body (length t - 1) (c == b'\n') (pos + 1) s
    ])
      ≡ scan_on body c pos s o
scan_cases body c pos s none = refl
scan_cases body c pos s (some t) = refl

find_from-scan_on :
    (body : Body) (c pos : ℕ) (s : Str)
    → find_from body 0 true pos (c ∷ s)
      ≡ scan_on body c pos s (matched (c ∷ s) (body (skip_space (c ∷ s))))
unfolding find_from match_here
find_from-scan_on body c pos s =
    scan_cases body c pos s (matched (c ∷ s) (body (skip_space (c ∷ s))))

scan_on-found :
    (body : Body) (c pos : ℕ) (l : Str) (ls : List Str) (o : Option Str)
    → NoNewline (c ∷ l)
    → ((m : Str) → o ≡ some m → length m ≤ suc (length l))
    → find_from body 0 true (pos + suc (length l) + 1) (unlines ls)
      ≡ found body (pos + suc (length l) + 1) ls
    → scan_on body c pos (l ++ 10 ∷ unlines ls) o
      ≡ with_hit pos o (found body (pos + suc (length l) + 1) ls)
scan_on-found body c pos l ls none n le ih =
    let same : pos + 1 + length l + 1 ≡ pos + suc (length l) + 1 = omega arith in
    ap (λ b. find_from body 0 b (pos + 1) (l ++ 10 ∷ unlines ls)) n.0
    ∙ skip_line body l 0 (pos + 1) (unlines ls) n.1 (omega arith)
    ∙ ap (λ i. find_from body 0 true i (unlines ls)) same
    ∙ ih
scan_on-found body c pos l ls (some m) n le ih =
    let same : pos + 1 + length l + 1 ≡ pos + suc (length l) + 1 = omega arith in
    ap (◌∷◌ (record { at = pos; text = m })) (
      ap (λ b. find_from body (length m - 1) b (pos + 1) (l ++ 10 ∷ unlines ls)) n.0
      ∙ skip_line body l (length m - 1) (pos + 1) (unlines ls) n.1 (omega (arith, le m refl))
      ∙ ap (λ i. find_from body 0 true i (unlines ls)) same
      ∙ ih)

-- The matches in a text of readable lines are those of its lines, each taken alone.
pub find_from-found :
    (body : Body) (pos : ℕ) (ls : List Str)
    → IsLocal body
    → AllReadable ls
    → find_from body 0 true pos (unlines ls) ≡ found body pos ls
unfolding find_from found
find_from-found body pos [] loc h = refl
find_from-found body pos ([] ∷ ls) loc h = absurd (h.0.1 (unfold skip_space in refl))
find_from-found body pos ((c ∷ l) ∷ ls) loc (r, h) =
    find_from-scan_on body c pos (l ++ 10 ∷ unlines ls)
    ∙ ap (scan_on body c pos (l ++ 10 ∷ unlines ls)) (hit-local body (c ∷ l) (unlines ls) loc r)
    ∙ scan_on-found body c pos l ls (hit body (c ∷ l)) r.0
        (λ m e. matched-le (c ∷ l) (body (skip_space (c ∷ l))) e)
        (find_from-found body (pos + suc (length l) + 1) ls loc h)
