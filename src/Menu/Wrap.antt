-- ===== src/Menu/Wrap.antt =====
-- pkg/menu: the loops of `DisplayResult` and `PromptConfirmation` that split a long line.
use webboot.Prelude.{
  ℕ, zero, suc, ◌≤◌, ◌<◌, Str, lit, List, [], ◌∷◌, ◌++◌, ◌≡◌, refl, ap, sym, append-nil, ◌∙◌, inl,
  inr, arith, length, take, drop, min, length-take, length-drop, take-append-drop, append_assoc,
  ltb, if◌then◌else◌, Bool-cases, ltb→lt,
}

-- `for len(m) > wid { text = append(text, m[0:wid]); m = m[wid:] }; text = append(text, m)`.
wrap : ℕ → ℕ → Str → List Str
wrap zero wid m = m ∷ []
wrap (suc f) wid m =
    let rest = take wid m ∷ wrap f wid (drop wid m) in if ltb wid (length m) then rest else m ∷ []

-- Each round takes at least one byte, so the length of the line is fuel enough.
unfoldable pub wrap_line : ℕ → Str → List Str
unfolding wrap
wrap_line wid m = wrap (length m) wid m

unfoldable pub wrap_lines : ℕ → List Str → List Str
wrap_lines wid [] = []
wrap_lines wid (m ∷ ms) = wrap_line wid m ++ wrap_lines wid ms

-- The loop of `PromptConfirmation`, which ends every piece with a newline.
confirm : ℕ → ℕ → Str → Str
confirm zero wid m = m ++ lit "\n"
confirm (suc f) wid m =
    let rest = (take wid m ++ lit "\n") ++ confirm f wid (drop wid m) in
    if ltb wid (length m) then rest else take (min (length m) wid) m ++ lit "\n"

unfoldable pub confirm_text : ℕ → Str → Str
unfolding confirm
confirm_text wid m = confirm (length m) wid m

-- Pieces of width `wid`, but for the last, which is no wider.
abbrev pub IsWrapped : ℕ → List Str → Type 0
IsWrapped wid [] = ⊥
IsWrapped wid (p ∷ []) = length p ≤ wid
IsWrapped wid (p ∷ q ∷ ps) = (length p ≡ wid) × IsWrapped wid (q ∷ ps)

abbrev pub pasted : List Str → Str
pasted [] = []
pasted (p ∷ ps) = p ++ pasted ps

abbrev pub AllWithin : ℕ → List Str → Type 0
AllWithin wid [] = Unit
AllWithin wid (p ∷ ps) = (length p ≤ wid) × AllWithin wid ps

IsWrapped-cons :
    (wid : ℕ) (p : Str) (ps : List Str) → length p ≡ wid → IsWrapped wid ps → IsWrapped wid (p ∷ ps)
IsWrapped-cons wid p [] e h = absurd h
IsWrapped-cons wid p (q ∷ ps) e h = (e, h)

wrap-IsWrapped : (f wid : ℕ) (m : Str) → 0 < wid → length m ≤ f → IsWrapped wid (wrap f wid m)
unfolding wrap
wrap-IsWrapped zero wid m pos h = omega arith
wrap-IsWrapped (suc f) wid m pos h = elim (Bool-cases (ltb wid (length m))) [
  | inl long ↦
      let wider : wid < length m = ltb→lt wid (length m) long in
      rw long (
        IsWrapped-cons wid (take wid m) (wrap f wid (drop wid m)) (omega (arith, length-take wid m))
          (wrap-IsWrapped f wid (drop wid m) pos (omega (arith, length-drop wid m))))
  | inr short ↦ rw short (ground arith)
]

pasted-wrap : (f wid : ℕ) (m : Str) → pasted (wrap f wid m) ≡ m
unfolding wrap
pasted-wrap zero wid m = append-nil m
pasted-wrap (suc f) wid m = elim (Bool-cases (ltb wid (length m))) [
  | inl long ↦
      rw long (ap (λ r. take wid m ++ r) (pasted-wrap f wid (drop wid m)) ∙ take-append-drop wid m)
  | inr short ↦ rw short (append-nil m)
]

-- Splitting a line loses nothing and adds nothing, and every piece but the last has exactly the
-- width, the last at most.
pub wrap_line_lem :
    (wid : ℕ) (m : Str) → 0 < wid → IsWrapped wid (wrap_line wid m) × (pasted (wrap_line wid m) ≡ m)
unfolding wrap_line
wrap_line_lem wid m pos =
    (wrap-IsWrapped (length m) wid m pos (omega arith), pasted-wrap (length m) wid m)

IsWrapped-AllWithin : (wid : ℕ) (ps : List Str) → IsWrapped wid ps → AllWithin wid ps
IsWrapped-AllWithin wid [] h = tt
IsWrapped-AllWithin wid (p ∷ []) h = (h, tt)
IsWrapped-AllWithin wid (p ∷ q ∷ ps) h = (omega arith, IsWrapped-AllWithin wid (q ∷ ps) h.1)

AllWithin-append :
    (wid : ℕ) (ps qs : List Str) → AllWithin wid ps → AllWithin wid qs → AllWithin wid (ps ++ qs)
AllWithin-append wid [] qs h k = k
AllWithin-append wid (p ∷ ps) qs h k = (h.0, AllWithin-append wid ps qs h.1 k)

pasted-append : (ps qs : List Str) → pasted (ps ++ qs) ≡ pasted ps ++ pasted qs
pasted-append [] qs = refl
pasted-append (p ∷ ps) qs = rw (pasted-append ps qs) (sym (append_assoc p (pasted ps) (pasted qs)))

-- Splitting all the lines keeps their bytes in order, and leaves no line wider than the window.
pub wrap_lines_lem :
    (wid : ℕ) (ms : List Str)
    → 0 < wid
    → AllWithin wid (wrap_lines wid ms) × (pasted (wrap_lines wid ms) ≡ pasted ms)
unfolding wrap_lines
wrap_lines_lem wid [] pos = (tt, refl)
wrap_lines_lem wid (m ∷ ms) pos =
    let (within, same) = wrap_line_lem wid m pos in
    let (within', same') = wrap_lines_lem wid ms pos in
    (
      AllWithin-append wid (wrap_line wid m) _ (IsWrapped-AllWithin wid _ within) within',
      pasted-append (wrap_line wid m) (wrap_lines wid ms) ∙ rw (same, same'),
    )

abbrev pub ended : List Str → Str
ended [] = []
ended (p ∷ ps) = (p ++ lit "\n") ++ ended ps

take-length : (m : Str) → take (length m) m ≡ m
take-length [] = refl
take-length (c ∷ m) = rw (take-length m)

take_whole : (wid : ℕ) (m : Str) → length m ≤ wid → take (min (length m) wid) m ≡ m
take_whole wid m h = let e : min (length m) wid ≡ length m = omega arith in rw e (take-length m)

ended-wrap : (f wid : ℕ) (m : Str) → confirm f wid m ≡ ended (wrap f wid m)
unfolding confirm wrap
ended-wrap zero wid m = sym (append-nil (m ++ lit "\n"))
ended-wrap (suc f) wid m = elim (Bool-cases (ltb wid (length m))) [
  | inl long ↦ rw long (ap (λ r. (take wid m ++ lit "\n") ++ r) (ended-wrap f wid (drop wid m)))
  | inr short ↦ rw (short, take_whole wid m (ground arith)) (sym (append-nil (m ++ lit "\n")))
]

-- The two loops split a message at the same places: `PromptConfirmation` ends each piece of
-- `DisplayResult` with a newline.
pub confirm_text-eq-ended : (wid : ℕ) (m : Str) → confirm_text wid m ≡ ended (wrap_line wid m)
unfolding confirm_text wrap_line
confirm_text-eq-ended wid m = ended-wrap (length m) wid m
