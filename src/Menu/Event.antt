-- ===== src/Menu/Event.antt =====
-- pkg/menu: the events of termui, `readKey`, and the loops that read keys.
use webboot.Prelude.{
  Str, Bool, true, false, List, [], ◌∷◌, Option, none, some, ◌≡◌, refl, Bool-cases, not, ◌&&◌, ◌≢◌,
  is_empty, arith, inl, inr, if◌then◌else◌,
}
use webboot.Exec.{Res, blocked}

-- `ui.EventType`.
pub data EventType : Type 0 where
  keyboard_event mouse_event resize_event : EventType

-- `ui.Event`, without its payload, which the program does not read.
pub record Event : Type 0 where
  pub type : EventType
  pub id : Str

abbrev pub is_input : EventType → Bool
is_input keyboard_event = true
is_input mouse_event = true
is_input resize_event = false

-- The events still to come are a list: `none` waits for ever.
unfoldable pub read_key : List Event → Option (Str × List Event)
read_key [] = none
read_key (e ∷ es) = elim (is_input e.type) [ true ↦ some (e.id, es) | false ↦ read_key es ]

-- What one round of a `for` loop does: another round, or a return.
pub data Next (S A : Type 0) : Type 0 where
  again : S → Next S A
  stop : Res A → Next S A

module _ {S A : Type 0} (step : S → Str → Next S A) where
  -- `for { k := readKey(uiEvents); … }`, with the events that are left.
  unfoldable pub listen : S → List Event → Res A × List Event
  listen s [] = (blocked, [])
  listen s (e ∷ es) = elim (is_input e.type) [
    | true ↦ elim (step s e.id) [ again s' ↦ listen s' es | stop r ↦ (r, es) ]
    | false ↦ listen s es
  ]

-- The names of all the events satisfy `Good`.
abbrev pub AllNames : (Str → Type 0) → List Event → Type 0
AllNames Good [] = Unit
AllNames Good (e ∷ es) = Good e.id × AllNames Good es

abbrev pub AnyName : Str → Type 0
AnyName k = Unit

pub AllNames-AnyName : (es : List Event) → AllNames AnyName es
AllNames-AnyName [] = tt
AllNames-AnyName (e ∷ es) = (tt, AllNames-AnyName es)

abbrev pub Keeps : {S A : Type 0} → (S → Type 0) → (Res A → Type 0) → Next S A → Type 0
Keeps P Q (again s) = P s
Keeps P Q (stop r) = Q r

pub Keeps-if :
    {S A : Type 0} (P : S → Type 0) (Q : Res A → Type 0) (b : Bool) (m n : Next S A)
    → (b ≡ true → Keeps P Q m)
    → (b ≡ false → Keeps P Q n)
    → Keeps P Q (if b then m else n)
Keeps-if P Q true m n km kn = km refl
Keeps-if P Q false m n km kn = kn refl

module _ {S A : Type 0} (step : S → Str → Next S A) where
  abbrev continue : Next S A → List Event → Res A × List Event
  continue (again s) es = listen step s es
  continue (stop r) es = (r, es)

  abbrev after_read : S → Option (Str × List Event) → Res A × List Event
  after_read s none = (blocked, [])
  after_read s (some (k, es)) = continue (step s k) es

  next-elim :
      (n : Next S A) (es : List Event)
      → elim n [ again s' ↦ listen step s' es | stop r ↦ (r, es) ] ≡ continue n es
  next-elim (again s) es = refl
  next-elim (stop r) es = refl

  -- A round of the loop is one `readKey` and one step.
  pub listen-read_key : (s : S) (es : List Event) → listen step s es ≡ after_read s (read_key es)
  unfolding listen read_key
  listen-read_key s [] = refl
  listen-read_key s (e ∷ es) = elim (Bool-cases (is_input e.type)) [
    | inl t ↦ rw (t, listen, read_key) (next-elim (step s e.id) es)
    | inr f ↦ rw (f, listen, read_key) (listen-read_key s es)
  ]

  next-Keeps :
      (P : S → Type 0) (Q : Res A → Type 0) (n : Next S A) (es : List Event)
      → Keeps P Q n
      → ((s : S) → P s → Q (listen step s es).0)
      → Q (continue n es).0
  next-Keeps P Q (again s) es h rec = rec s h
  next-Keeps P Q (stop r) es h rec = h

  -- The invariant rule of such loops, over events whose names all satisfy `Good`.
  pub listen_inv :
      (Good : Str → Type 0) (P : S → Type 0) (Q : Res A → Type 0)
      → ((s : S) (k : Str) → Good k → P s → Keeps P Q (step s k))
      → Q blocked
      → (s : S) (es : List Event) → AllNames Good es
      → P s
      → Q (listen step s es).0
  unfolding listen
  listen_inv Good P Q keep waits s [] g h = waits
  listen_inv Good P Q keep waits s (e ∷ es) g h = elim (Bool-cases (is_input e.type)) [
    | inl t ↦
        rw (t, listen, next-elim (step s e.id) es)
          (next-Keeps P Q (step s e.id) es (keep s e.id g.0 h)
            (λ s' p. listen_inv Good P Q keep waits s' es g.1 p))
    | inr f ↦ rw (f, listen) (listen_inv Good P Q keep waits s es g.1 h)
  ]

-- Two rounds that do the same, with related states where they go on.
abbrev pub Agree : {S T A : Type 0} → (S → T → Type 0) → Next S A → Next T A → Type 0
Agree R (again s) (again t) = R s t
Agree R (stop q) (stop r) = q ≡ r
Agree R (again s) (stop r) = ⊥
Agree R (stop q) (again t) = ⊥

module _ {S T A : Type 0} (f : S → Str → Next S A) (g : T → Str → Next T A) where
  next-Agree :
      (R : S → T → Type 0) (m : Next S A) (n : Next T A) (es : List Event)
      → Agree R m n
      → ((s : S) (t : T) → R s t → listen f s es ≡ listen g t es)
      → continue f m es ≡ continue g n es
  next-Agree R (again s) (again t) es h rec = rec s t h
  next-Agree R (stop q) (stop r) es h rec = rw h
  next-Agree R (again s) (stop r) es h rec = absurd h
  next-Agree R (stop q) (again t) es h rec = absurd h

  -- Two loops whose rounds agree return the same, and leave the same events.
  pub listen_sim :
      (R : S → T → Type 0)
      → ((s : S) (t : T) (k : Str) → R s t → Agree R (f s k) (g t k))
      → (s : S) (t : T) (es : List Event) → R s t
      → listen f s es ≡ listen g t es
  unfolding listen
  listen_sim R keep s t [] h = refl
  listen_sim R keep s t (e ∷ es) h = elim (Bool-cases (is_input e.type)) [
    | inl y ↦
        rw (y, listen, next-elim f (f s e.id) es, next-elim g (g t e.id) es)
          (next-Agree R (f s e.id) (g t e.id) es (keep s t e.id h)
            (λ s' t' p. listen_sim R keep s' t' es p))
    | inr n ↦ rw (n, listen) (listen_sim R keep s t es h)
  ]

-- The events of pressing these keys.
abbrev pub press : Str → Event
press k = record { type = keyboard_event; id = k }

abbrev pub presses : List Str → List Event
presses [] = []
presses (k ∷ ks) = press k ∷ presses ks

module _ {S A : Type 0} (step : S → Str → Next S A) where
  pub listen_again :
      (s s' : S) (k : Str) (es : List Event)
      → step s k ≡ again s'
      → listen step s (press k ∷ es) ≡ listen step s' es
  unfolding listen
  listen_again s s' k es h = rw h

  pub listen_stop :
      (s : S) (r : Res A) (k : Str) (es : List Event)
      → step s k ≡ stop r
      → listen step s (press k ∷ es) ≡ (r, es)
  unfolding listen
  listen_stop s r k es h = rw h

-- No event has the empty name.
abbrev pub all_named : List Event → Bool
all_named [] = true
all_named (e ∷ es) = not (is_empty e.id) && all_named es

pub all_named-AllNames : (es : List Event) → all_named es ≡ true → AllNames (λ k. k ≢ []) es
all_named-AllNames [] h = tt
all_named-AllNames (e ∷ es) h = (ground arith, all_named-AllNames es (ground arith))
