-- ===== src/Menu/Message/Scrolling.antt =====
-- The window of `DisplayResult` stays on the message, and is always full.
use webboot.Prelude.{
  ℕ, ◌+◌, ◌-◌, ◌≤◌, min, Str, lit, List, ◌++◌, Option, some, ◌≡◌, ap, ◌∙◌, arith, length, take,
  drop, join, slice?-some,
}
use webboot.Exec.{Error, Res, ok, err, panicked, blocked, exited}
use webboot.Menu.Event.{Event, Keeps, AnyName, AllNames-AnyName, listen_inv}
use webboot.Menu.Key.{Key, ctrl_d, escape, up, down, left, right, page_up, page_down, key_of}
use webboot.Menu.Message.{
  Pager, result_height, footer, page_of, paint, turn, scroll_case, scroll_step, scroll,
}

-- The window holds as many lines as fit, all of them lines of the message.
pub record IsFull (text : List Str) (p : Pager) : Type 0 where
  pub within : p.last ≤ length text
  pub full : p.last ≡ p.first + min result_height (length text)

-- The pager shows the lines of its window.
pub record Pages (text : List Str) (p : Pager) : Type 0 where
  pub window : IsFull text p
  pub shows :
      p.text
      ≡ join (lit "\n") (take (min result_height (length text)) (drop p.first text))
        ++ footer text p.last

-- A page of the message: as many lines as fit, one after the other, and the footer.
pub record IsPage (text : List Str) (shown : Str) : Type 0 where
  pub first : ℕ
  pub within : first + min result_height (length text) ≤ length text
  pub lines :
      shown
      ≡ join (lit "\n") (take (min result_height (length text)) (drop first text))
        ++ footer text (first + min result_height (length text))

-- A call that has returned has shown a page; it may still wait, and it does not panic.
abbrev pub Returns : List Str → Res (Str × Option Error) → Type 0
Returns text (ok (shown, e)) = IsPage text shown
Returns text (err e) = ⊥
Returns text blocked = Unit
Returns text panicked = ⊥
Returns text (exited n) = ⊥

module _ (text : List Str) where
  paint_lem :
      (first last : ℕ)
      → last ≤ length text
      → last ≡ first + min result_height (length text)
      → (p : Pager) × (paint text first last ≡ some p) × Pages text p
  unfolding paint
  paint_lem first last h e =
      let count : last - first ≡ min result_height (length text) = omega arith in
      (
        page_of text first last (take (last - first) (drop first text)),
        rw (slice?-some first last text (omega arith) h, paint),
        record {
          window = record { within = h; full = e };
          shows = ap (λ n. join (lit "\n") (take n (drop first text)) ++ footer text last) count;
        },
      )

  turn-Pages :
      (first last : ℕ)
      → last ≤ length text
      → last ≡ first + min result_height (length text)
      → Keeps (Pages text) (Returns text) (turn text first last)
  unfolding turn
  turn-Pages first last h e =
      let (p, painted, good) = paint_lem first last h e in rw (painted, turn) good

  Pages-IsPage : (p : Pager) → Pages text p → IsPage text p.text
  Pages-IsPage p h = record {
    first = p.first;
    within = omega (arith, h.window.full, h.window.within);
    lines =
        h.shows
        ∙ ap
            (λ n.
              join (lit "\n") (take (min result_height (length text)) (drop p.first text))
              ++ footer text n)
            h.window.full;
  }

  scroll-Pages :
      (p : Pager) (key : Key)
      → Pages text p
      → Keeps (Pages text) (Returns text) (scroll_case text p key)
  unfolding scroll_case
  scroll-Pages p ctrl_d h = Pages-IsPage p h
  scroll-Pages p escape h = Pages-IsPage p h
  scroll-Pages p up h = turn-Pages _ _ (omega arith) (omega (arith, h.window.full, h.window.within))
  scroll-Pages p down h =
      turn-Pages _ _ (omega arith) (omega (arith, h.window.full, h.window.within))
  scroll-Pages p left h =
      turn-Pages _ _ (omega arith) (omega (arith, h.window.full, h.window.within))
  scroll-Pages p right h =
      turn-Pages _ _ (omega arith) (omega (arith, h.window.full, h.window.within))
  scroll-Pages p page_up h =
      turn-Pages _ _ (omega arith) (omega (arith, h.window.full, h.window.within))
  scroll-Pages p page_down h =
      turn-Pages _ _ (omega arith) (omega (arith, h.window.full, h.window.within))
  scroll-Pages p _ h = Pages-IsPage p h

-- However the user scrolls, `DisplayResult` does not panic on its slices, and the text that it
-- returns is a page of the split message: twenty lines one after the other, or all of them if they
-- are fewer, and the footer for that place.
pub scroll-Returns : (text : List Str) (es : List Event) → Returns text (scroll text es).0
unfolding scroll scroll_case
scroll-Returns text es =
    let (p, painted, good) =
      paint_lem text 0 (min result_height (length text)) (omega arith) (omega arith) in
    rw (painted, scroll)
      (listen_inv (scroll_step text) AnyName (Pages text) (Returns text)
        (λ q k _ h. scroll-Pages text q (key_of k) h) tt p es (AllNames-AnyName es) good)
