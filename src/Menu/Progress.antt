-- ===== src/Menu/Progress.antt =====
-- The progress bar of pkg/menu/menu.go: the goroutine that animates it and the code that holds it
-- are two threads, which share the paragraph and meet at two channels without buffers.
pub mod Closing
pub mod Drawing
use webboot.Prelude.{
  ℕ, zero, suc, Bool, true, false, Str, lit, [], ◌∷◌, ◌++◌, Option, none, some, ◌+◌, ◌%◌, ◌≡◌, ◌≢◌,
}

-- Where the holder of the bar stands. It is `free` between its calls.
pub data Holder : Type 0 where
  free : Holder
  updating : Holder  -- in `Update`, before the paragraph is drawn
  signalling : Holder  -- in `Close`, at `p.sigTerm <- true`
  awaiting : Holder  -- in `Close`, at `<-p.ackTerm`
  clearing : Holder  -- in `Close`, before `ui.Clear`
  closed : Holder

-- Where `animate` stands, with the counter and the text that it keeps.
pub data Animator : Type 0 where
  off : Animator  -- never started
  selecting sleeping reading : ℕ → Animator
  holding : ℕ → Str → Animator  -- before the text with dots is written
  dotted : ℕ → Str → Animator  -- before it is drawn
  drawn : ℕ → Str → Animator  -- before the text is put back
  acknowledging ended : Animator

-- `text` is `p.paragraph.Text`; `screen` is what was drawn last, nothing once it is cleared.
pub record Progress : Type 0 where
  pub text : Str
  pub screen : Option Str
  pub holder : Holder
  pub animator : Animator

abbrev started : Bool → Animator
started true = selecting 0
started false = off

unfoldable pub new_progress : Str → Bool → Progress
new_progress text animated = record {
  text = text;
  screen = some text;
  holder = free;
  animator = started animated;
}

-- `strings.Repeat(".", n)`.
abbrev pub dots : ℕ → Str
dots zero = []
dots (suc n) = b'.' ∷ dots n

-- The paragraph with its dots for a counter.
abbrev pub with_dots : ℕ → Str → Str
with_dots counter text = text ++ dots (counter % 4)

-- One step of one of the threads. A `select` takes its default only while no sender waits. The
-- counter counts seconds, and does not come to 2^63.
pub data Step (p : Progress) : Progress → Type 0 where
  write : (text : Str) → p.holder ≡ free → Step p (record p { text = text; holder = updating })
  show : p.holder ≡ updating → Step p (record p { screen = some p.text; holder = free })
  close : p.holder ≡ free → p.animator ≢ off → Step p (record p { holder = signalling })
  close_plain : p.holder ≡ free → p.animator ≡ off → Step p (record p { holder = clearing })
  signal :
      {counter : ℕ}
      → p.holder ≡ signalling
      → p.animator ≡ selecting counter
      → Step p (record p { holder = awaiting; animator = acknowledging })
  acknowledge :
      p.holder ≡ awaiting
      → p.animator ≡ acknowledging
      → Step p (record p { holder = clearing; animator = ended })
  clear : p.holder ≡ clearing → Step p (record p { screen = none; holder = closed })
  wait :
      {counter : ℕ}
      → p.animator ≡ selecting counter
      → p.holder ≢ signalling
      → Step p (record p { animator = sleeping counter })
  wake :
      {counter : ℕ}
      → p.animator ≡ sleeping counter
      → Step p (record p { animator = reading counter })
  read :
      {counter : ℕ}
      → p.animator ≡ reading counter
      → Step p (record p { animator = holding counter p.text })
  add_dots :
      {counter : ℕ} {kept : Str}
      → p.animator ≡ holding counter kept
      → Step p (record p { text = with_dots counter kept; animator = dotted counter kept })
  draw :
      {counter : ℕ} {kept : Str}
      → p.animator ≡ dotted counter kept
      → Step p (record p { screen = some p.text; animator = drawn counter kept })
  put_back :
      {counter : ℕ} {kept : Str}
      → p.animator ≡ drawn counter kept
      → Step p (record p { text = kept; animator = selecting (counter + 1) })

-- What can come of a new bar.
pub data Reach (text : Str) (animated : Bool) : Progress → Type 0 where
  start : Reach text animated (new_progress text animated)
  later : {p q : Progress} → Reach text animated p → Step p q → Reach text animated q

-- A run of so many steps.
pub data Run (p : Progress) : ℕ → Progress → Type 0 where
  none_yet : Run p 0 p
  more : {n : ℕ} {q r : Progress} → Run p n q → Step q r → Run p (suc n) r
