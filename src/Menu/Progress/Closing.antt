-- ===== src/Menu/Progress/Closing.antt =====
-- `Close` ends, and with it the animation.
use webboot.Prelude.{
  ℕ, Bool, true, false, Str, none, ◌+◌, ◌≤◌, ◌<◌, ◌≡◌, ◌⊎◌, inl, inr, refl, arith,
}
use webboot.Menu.Progress.{
  Holder, free, updating, signalling, awaiting, clearing, closed, Animator, off, selecting,
  sleeping, reading, holding, dotted, drawn, acknowledging, ended, Progress, new_progress, Step,
  write, show, close, close_plain, signal, acknowledge, clear, wait, wake, read, add_dots, draw,
  put_back, Reach, start, later, Run, none_yet, more,
}

-- The goroutine has not been started, or it has returned.
abbrev pub is_over : Animator → Bool
is_over off = true
is_over ended = true
is_over _ = false

abbrev is_acknowledging : Animator → Bool
is_acknowledging acknowledging = true
is_acknowledging _ = false

-- `Close` has been called.
abbrev pub has_closed : Holder → Bool
has_closed free = false
has_closed updating = false
has_closed _ = true

-- Where the threads can stand together.
record Together (p : Progress) : Type 0 where
  over : p.holder ≡ clearing → is_over p.animator ≡ true
  over_closed : p.holder ≡ closed → (is_over p.animator ≡ true) × (p.screen ≡ none)
  meets : p.holder ≡ awaiting → p.animator ≡ acknowledging
  met : p.animator ≡ acknowledging → p.holder ≡ awaiting
  alive : p.holder ≡ signalling → is_over p.animator ≡ false
  returned : p.animator ≡ ended → (p.holder ≡ clearing) ⊎ (p.holder ≡ closed)

Step-Together : {p q : Progress} → Step p q → Together p → Together q
Step-Together (write t h) i = ground arith
Step-Together (show h) i = ground arith
Step-Together (close h k) i = ground arith
Step-Together (close_plain h k) i = ground arith
Step-Together (signal h k) i = ground arith
Step-Together (acknowledge h k) i = ground arith
Step-Together (clear h) i = ground arith
Step-Together (wait h k) i = ground arith
Step-Together (wake h) i = ground arith
Step-Together (read h) i = ground arith
Step-Together (add_dots h) i = ground arith
Step-Together (draw h) i = ground arith
Step-Together (put_back h) i = ground arith

new-Together : (text : Str) (animated : Bool) → Together (new_progress text animated)
unfolding new_progress
new-Together text true = ground arith
new-Together text false = ground arith

Reach-Together : {text : Str} {animated : Bool} {p : Progress} → Reach text animated p → Together p
Reach-Together {text} {animated} start = new-Together text animated
Reach-Together (later r s) = Step-Together s (Reach-Together r)

-- Steps that `animate` can make before it selects.
abbrev until_select : Animator → ℕ
until_select (sleeping c) = 5
until_select (reading c) = 4
until_select (holding c k) = 3
until_select (dotted c k) = 2
until_select (drawn c k) = 1
until_select _ = 0

-- Steps that are left at most, once `Close` has been called.
abbrev left : Holder → Animator → ℕ
left signalling a = until_select a + 3
left awaiting a = 2
left clearing a = 1
left _ a = 0

abbrev IsClosing : Progress → Progress → Type 0
IsClosing p q = (has_closed q.holder ≡ true) × (left q.holder q.animator < left p.holder p.animator)

Step-left : {p q : Progress} → Step p q → Together p → has_closed p.holder ≡ true → IsClosing p q
Step-left (write t h) i c = ground arith
Step-left (show h) i c = ground arith
Step-left (close h k) i c = ground arith
Step-left (close_plain h k) i c = ground arith
Step-left (signal h k) i c = ground arith
Step-left (acknowledge h k) i c = ground arith
Step-left (clear h) i c = ground arith
Step-left (wait h k) i c = ground arith
Step-left (wake h) i c = ground arith
Step-left (read h) i c = ground arith
Step-left (add_dots h) i c = ground arith
Step-left (draw h) i c = ground arith
Step-left (put_back h) i c = ground arith

Run-left :
    {p q : Progress} {n : ℕ}
    → Run p n q
    → Together p
    → has_closed p.holder ≡ true
    → Together q
      × (has_closed q.holder ≡ true)
      × (left q.holder q.animator + n ≤ left p.holder p.animator)
Run-left none_yet i c = (i, c, omega arith)
Run-left (more r s) i c =
    let (j, d, n) = Run-left r i c in
    let (e, lt) = Step-left s j d in (Step-Together s j, e, omega arith)

animator-goes :
    (p : Progress) (a : Animator)
    → p.animator ≡ a
    → p.holder ≡ signalling
    → is_over a ≡ false
    → is_acknowledging a ≡ false
    → (q : Progress) × Step p q
animator-goes p off e h o k = absurd (cc)
animator-goes p (selecting c) e h o k = (_, signal h e)
animator-goes p (sleeping c) e h o k = (_, wake e)
animator-goes p (reading c) e h o k = (_, read e)
animator-goes p (holding c x) e h o k = (_, add_dots e)
animator-goes p (dotted c x) e h o k = (_, draw e)
animator-goes p (drawn c x) e h o k = (_, put_back e)
animator-goes p acknowledging e h o k = absurd (cc)
animator-goes p ended e h o k = absurd (cc)

goes_on :
    (p : Progress) (h : Holder)
    → p.holder ≡ h
    → has_closed h ≡ true
    → Together p
    → (p.holder ≡ closed) ⊎ ((q : Progress) × Step p q)
goes_on p free e c i = absurd (cc)
goes_on p updating e c i = absurd (cc)
goes_on p signalling e c i = inr (animator-goes p p.animator refl e (i.alive e) (ground arith))
goes_on p awaiting e c i = inr (_, acknowledge e (i.meets e))
goes_on p clearing e c i = inr (_, clear e)
goes_on p closed e c i = inl e

until_select-le : (a : Animator) → until_select a ≤ 5
until_select-le off = omega arith
until_select-le (selecting c) = omega arith
until_select-le (sleeping c) = omega arith
until_select-le (reading c) = omega arith
until_select-le (holding c k) = omega arith
until_select-le (dotted c k) = omega arith
until_select-le (drawn c k) = omega arith
until_select-le acknowledging = omega arith
until_select-le ended = omega arith

left-le : (h : Holder) (a : Animator) → left h a ≤ 8
left-le h a = ground (arith, until_select-le a)

-- Once `Close` has been called, the two threads make at most eight more steps, in whatever order,
-- and until it has returned one of them can make a step: `Close` returns.
pub Close-returns :
    {text : Str} {animated : Bool} {p q : Progress} {n : ℕ}
    → Reach text animated p
    → has_closed p.holder ≡ true
    → Run p n q
    → (n ≤ 8) × ((q.holder ≡ closed) ⊎ ((r : Progress) × Step q r))
Close-returns {p} {q} reach c run =
    let (i, d, n) = Run-left run (Reach-Together reach) c in
    (omega (arith, left-le p.holder p.animator), goes_on q q.holder refl d i)

-- After `Close` has returned the screen is cleared, the animation is over or was never started,
-- and no thread makes a step: nothing is drawn any more.
pub closed-IsStill :
    {text : Str} {animated : Bool} {p : Progress}
    → Reach text animated p
    → p.holder ≡ closed
    → (p.screen ≡ none) × (is_over p.animator ≡ true) × ¬ ((q : Progress) × Step p q)
closed-IsStill {p} reach e =
    let i = Reach-Together reach in
    let (over, cleared) = i.over_closed e in
    (cleared, over, λ (q, s). absurd (nothing_left (Step-left s i (rw e refl)).1))
  where
    nothing_left : {n : ℕ} → n < left p.holder p.animator → ⊥
    nothing_left lt = ground arith
