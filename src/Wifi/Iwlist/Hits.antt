-- ===== src/Wifi/Iwlist/Hits.antt =====
-- The matches in a list of lines of which most have none.
use webboot.Prelude.{
  ℕ, ◌+◌, Str, List, [], ◌∷◌, ◌++◌, none, some, length, length-append, append_assoc, ◌≡◌, refl, sym,
  ap, ◌∙◌, arith,
}
use webboot.Wifi.Regex.{Body}
use webboot.Wifi.Regex.Lines.{AllReadable, unlines, hit, with_hit, found}
use webboot.Wifi.Iwlist.Cells.{Pattern, pattern_body, IsQuiet}

abbrev pub Misses : Body → List Str → Type 0
Misses body [] = Unit
Misses body (l ∷ ls) = (hit body l ≡ none) × Misses body ls

pub Misses-append :
    (body : Body) (ls ms : List Str) → Misses body ls → Misses body ms → Misses body (ls ++ ms)
Misses-append body [] ms m n = n
Misses-append body (l ∷ ls) ms m n = (m.0, Misses-append body ls ms m.1 n)

pub IsQuiet-Misses : (p : Pattern) (ls : List Str) → IsQuiet ls → Misses (pattern_body p) ls
IsQuiet-Misses p [] q = tt
IsQuiet-Misses p (l ∷ ls) q = (q.0.1 p, IsQuiet-Misses p ls q.1)

pub AllReadable-append :
    (ls ms : List Str) → AllReadable ls → AllReadable ms → AllReadable (ls ++ ms)
AllReadable-append [] ms m n = n
AllReadable-append (l ∷ ls) ms m n = (m.0, AllReadable-append ls ms m.1 n)

pub IsQuiet-AllReadable : (ls : List Str) → IsQuiet ls → AllReadable ls
IsQuiet-AllReadable [] q = tt
IsQuiet-AllReadable (l ∷ ls) q = (q.0.0, IsQuiet-AllReadable ls q.1)

pub unlines-append : (ls ms : List Str) → unlines (ls ++ ms) ≡ unlines ls ++ unlines ms
unlines-append [] ms = refl
unlines-append (l ∷ ls) ms =
    ap (λ r. l ++ 10 ∷ r) (unlines-append ls ms)
    ∙ sym (append_assoc l (10 ∷ unlines ls) (unlines ms))

length-unlines :
    (l : Str) (ls : List Str) → length (unlines (l ∷ ls)) ≡ length l + 1 + length (unlines ls)
length-unlines l ls = omega (arith, length-append l (10 ∷ unlines ls))

-- Lines without a match only move the place of the matches behind them.
pub found-Misses :
    (body : Body) (pos : ℕ) (ls ms : List Str)
    → Misses body ls
    → found body pos (ls ++ ms) ≡ found body (pos + length (unlines ls)) ms
unfolding found
found-Misses body pos [] ms m =
    let same : pos ≡ pos + 0 = omega arith in ap (λ i. found body i ms) same
found-Misses body pos (l ∷ ls) ms m =
    let same : pos + length l + 1 + length (unlines ls) ≡ pos + length (unlines (l ∷ ls)) =
      omega (arith, length-unlines l ls) in
    ap (λ h. with_hit pos h (found body (pos + length l + 1) (ls ++ ms))) m.0
    ∙ found-Misses body (pos + length l + 1) ls ms m.1
    ∙ ap (λ i. found body i ms) same

-- One line with a match among lines without.
pub found-one :
    (body : Body) (pos : ℕ) (ls : List Str) (l : Str) (ms ns : List Str) (t : Str)
    → Misses body ls
    → hit body l ≡ some t
    → Misses body ms
    → found body pos ((ls ++ l ∷ ms) ++ ns)
      ≡ record { at = pos + length (unlines ls); text = t }
        ∷ found body (pos + length (unlines (ls ++ l ∷ ms))) ns
unfolding found
found-one body pos ls l ms ns t m h n =
    let here = pos + length (unlines ls) in
    let same : here + length l + 1 + length (unlines ms) ≡ pos + length (unlines (ls ++ l ∷ ms)) =
      omega (
        arith,
        length-unlines l ms,
        ap length (unlines-append ls (l ∷ ms)),
        length-append (unlines ls) (unlines (l ∷ ms)),
      ) in
    ap (found body pos) (append_assoc ls (l ∷ ms) ns)
    ∙ found-Misses body pos ls (l ∷ ms ++ ns) m
    ∙ ap (λ o. with_hit here o (found body (here + length l + 1) (ms ++ ns))) h
    ∙ ap (◌∷◌ (record { at = here; text = t }))
        (found-Misses body (here + length l + 1) ms ns n ∙ ap (λ i. found body i ns) same)
