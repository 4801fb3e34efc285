-- ===== src/Cmd/Counter/Totals.antt =====
-- What the counter and the file have when a copy is over.
use webboot.Prelude.{
  ℕ, ◌+◌, zero, suc, ℤ, Str, List, [], ◌∷◌, ◌++◌, Option, none, some, take, length, length-append,
  append_assoc, append-nil, ◌≡◌, refl, sym, ap, ◌∙◌, arith,
}
use webboot.Exec.{Error}
use webboot.Cmd.Counter.{
  new_write_counter, End, going, eof, failed, Read, Outcome, copied, waiting, stopped, Copy, write,
  closing, close_counter, checked, tee_write, written, copy_counted, counted_download,
}

abbrev then_more : End → Str → Str
then_more going rest = rest
then_more _ rest = []

-- What the reads bring, up to the one that ends the copy.
unfoldable pub brought : List Read → Str
brought [] = []
brought (r ∷ rs) = let rest = brought rs in r.bytes ++ then_more r.end rest

take-whole : (p : Str) (n : ℕ) → n ≡ length p → take n p ≡ p
take-whole [] zero h = refl
take-whole [] (suc n) h = absurd (omega (arith, h))
take-whole (c ∷ p) zero h = absurd (omega (arith, h))
take-whole (c ∷ p) (suc n) h = ap (◌∷◌ c) (take-whole p n (omega (arith, h)))

checked-none : (p : Str) (n : ℕ) (e : Option Error) → checked p n e ≡ none → n ≡ length p
checked-none p n (some e) h = cc
checked-none p n none h = ground (arith, h)

-- A property of the state if nothing stopped the copy, and if the copy came to its end.
abbrev Going : (Copy → Type 0) → Option Error × Copy → Type 0
Going Q (none, t) = Q t
Going Q (some e, t) = Unit

abbrev Done : (Copy → Type 0) → Outcome × Copy → Type 0
Done Q (copied, t) = Q t
Done Q (waiting, t) = Unit
Done Q (stopped e, t) = Unit

Going-pair : (Q : Copy → Type 0) (o : Option Error) (t : Copy) → (o ≡ none → Q t) → Going Q (o, t)
Going-pair Q none t h = h refl
Going-pair Q (some e) t h = tt

Done-map :
    (P Q : Copy → Type 0) (r : Outcome × Copy) → Done P r → ((t : Copy) → P t → Q t) → Done Q r
Done-map P Q (copied, t) h f = f t h
Done-map P Q (waiting, t) h f = tt
Done-map P Q (stopped e, t) h f = tt

-- The file and the counter both have so much more.
abbrev Has : Copy → Str → Copy → Type 0
Has s p t = (t.file ≡ s.file ++ p) × (t.counter.received ≡ s.counter.received + length p)

Has-nil : (s : Copy) → Has s [] s
Has-nil s = (sym (append-nil s.file), omega arith)

Has-append : (s t u : Copy) (p q : Str) → Has s p t → Has t q u → Has s (p ++ q) u
Has-append s t u p q h k = (
  k.0 ∙ ap (λ f. f ++ q) h.0 ∙ append_assoc s.file p q,
  omega (arith, h.1, k.1, length-append p q),
)

module _ (render : ℕ → ℤ → Str) (accept : Str → Str → ℕ × Option Error) where
  tee_write-Has : (p : Str) (s : Copy) → Going (Has s p) (tee_write render accept p s)
  unfolding tee_write write
  tee_write-Has [] s = Has-nil s
  tee_write-Has (c ∷ p) s =
      let (n, e) = accept s.file (c ∷ p) in
      Going-pair (Has s (c ∷ p)) (checked (c ∷ p) n e) _
        (λ h. (ap (◌++◌ s.file) (take-whole (c ∷ p) n (checked-none (c ∷ p) n e h)), refl))

  written-Has :
      (p : Str) (s : Copy) (w : Option Error × Copy) (end : End) (rest : Str)
      (next : Copy → Outcome × Copy)
      → Going (Has s p) w
      → ((t : Copy) → Done (Has t rest) (next t))
      → Done (Has s (p ++ then_more end rest)) (written w end next)
  written-Has p s (some e, t) end rest next h k = tt
  written-Has p s (none, t) going rest next h k =
      Done-map (Has t rest) (Has s (p ++ rest)) (next t) (k t) (λ u l. Has-append s t u p rest h l)
  written-Has p s (none, t) eof rest next h k = Has-append s t t p [] h (Has-nil t)
  written-Has p s (none, t) (failed e) rest next h k = tt

  copy_counted-Has :
      (rs : List Read) (s : Copy) → Done (Has s (brought rs)) (copy_counted render accept rs s)
  unfolding copy_counted brought
  copy_counted-Has [] s = tt
  copy_counted-Has (r ∷ rs) s =
      written-Has r.bytes s (tee_write render accept r.bytes s) r.end (brought rs) _
        (tee_write-Has r.bytes s) (λ t. copy_counted-Has rs t)

  closing-copied :
      (p : Str) (r : Outcome × Copy) (s : Copy)
      → Done (Has s p) r
      → (closing r).0 ≡ copied
      → Has s p (closing r).1
  unfolding closing close_counter
  closing-copied p (copied, t) s d h = d
  closing-copied p (waiting, t) s d h = cc
  closing-copied p (stopped e, t) s d h = cc

  -- If the copy of a response comes to its end, the file has all that was read, in order, and the counter has counted exactly its bytes.
  pub counted_download-copied :
      (size : ℤ) (rs : List Read)
      → (counted_download render accept size rs).0 ≡ copied
      → ((counted_download render accept size rs).1.file ≡ brought rs)
        × ((counted_download render accept size rs).1.counter.received ≡ length (brought rs))
  unfolding counted_download new_write_counter
  counted_download-copied size rs h =
      let begin : Copy = record { file = []; counter = new_write_counter size } in
      let (f, c) =
        closing-copied (brought rs) (copy_counted render accept rs begin) begin
          (copy_counted-Has rs begin) h in
      (f, omega (arith, c))
