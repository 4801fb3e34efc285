-- ===== src/Cmd/Mirrors/Links.antt =====
-- Where the link to an ISO comes from.
use mathlib.Core.Bool.{false≢true}
use mathlib.Core.Option.{some-injective}
use mathlib.Core.Path.{subst}
use webboot.Prelude.{
  ℕ, zero, suc, ◌<◌, ◌^◌, true, Str, lit, itoa, text_eq, text_eq_iff, text_eq_refl, List, [], ◌∷◌,
  ◌++◌, map, Option, none, some, get_elem?, ◌≡◌, ◌≢◌, refl, sym, ap, ◌∙◌, Bool-cases, inl, inr,
}
use webboot.Exec.{ok}
use webboot.Exec.Inversion.{proceed-ok, value, ok-injective}
use webboot.Menu.Event.{Event, press, presses}
use webboot.Menu.Options.Choosing.{singles}
use webboot.Menu.Options.{special_warning}
use webboot.Menu.TextInput.{prompt_text_input}
use webboot.Menu.TextInput.Accepted.{Accepted, prompt_text_input-Accepted}
use webboot.Cmd.Utils.{is_iso_url, valid_url}
use webboot.Menu.Entries.Picking.{prompt_menu_entry_by_number}
use webboot.Cmd.Types.{Mirror, Entry, mirror, label}
use webboot.Cmd.App.{Env, App, prompt}
use webboot.Cmd.Mirrors.{
  find_link, link_or_error, pick_mirror, distro_named, mirror_menu, choose_link,
}

-- No two mirrors have one name.
abbrev pub NotNamed : Str → List Mirror → Type 0
NotNamed name [] = Unit
NotNamed name (m ∷ ms) = (m.name ≢ name) × NotNamed name ms

-- The link is that of the first mirror with its name.
abbrev pub LinkIn : List Mirror → Str → Type 0
LinkIn ms url =
    (before : List Mirror) × (m : Mirror) × (after : List Mirror) × (ms ≡ before ++ m ∷ after)
    × (m.url ≡ url)
    × NotNamed m.name before

abbrev pub DistinctNames : List Mirror → Type 0
DistinctNames [] = Unit
DistinctNames (m ∷ ms) = NotNamed m.name ms × DistinctNames ms

find_link-LinkIn :
    (name url : Str) (ms : List Mirror)
    → find_link name ms ≡ some url
    → (before : List Mirror) × (m : Mirror) × (after : List Mirror) × (ms ≡ before ++ m ∷ after)
      × (m.url ≡ url)
      × (m.name ≡ name)
      × NotNamed name before
unfolding find_link
find_link-LinkIn name url [] h = cc
find_link-LinkIn name url (m ∷ ms) h = elim (Bool-cases (text_eq m.name name)) [
  | inl y ↦ (
    [],
    m,
    ms,
    refl,
    some-injective _ _ (rw (y, find_link) at h),
    (text_eq_iff m.name name).0 y,
    tt,
  )
  | inr n ↦
      let (before, k, after, e, u, l, q) = find_link-LinkIn name url ms (rw (n, find_link) at h) in
      (
        m ∷ before,
        k,
        after,
        ap (◌∷◌ m) e,
        u,
        l,
        (λ a. false≢true (sym n ∙ (text_eq_iff m.name name).1 a), q),
      )
]

NotNamed-at :
    (name : Str) (ms : List Mirror) (c : ℕ) (m : Mirror)
    → NotNamed name ms
    → get_elem? ms c ≡ some m
    → m.name ≢ name
NotNamed-at name [] c m d h = cc
NotNamed-at name (k ∷ ms) zero m d h = subst (λ x. x.name ≢ name) (some-injective _ _ h) d.0
NotNamed-at name (k ∷ ms) (suc c) m d h = NotNamed-at name ms c m d.1 h

find_link_at :
    (ms : List Mirror) (c : ℕ) (m : Mirror)
    → DistinctNames ms
    → get_elem? ms c ≡ some m
    → (get_elem? (map mirror ms) c ≡ some (mirror m)) × (find_link m.name ms ≡ some m.url)
unfolding find_link
find_link_at [] c m d h = cc
find_link_at (k ∷ ms) zero m d h =
    let e = some-injective _ _ h in
    (
      ap (λ o. some (mirror o)) e,
      subst (λ x. find_link x.name (k ∷ ms) ≡ some x.url) e (rw text_eq_refl refl),
    )
find_link_at (k ∷ ms) (suc c) m d h =
    let (at, link) = find_link_at ms c m d.1 h in
    (
      at,
      elim (Bool-cases (text_eq k.name m.name)) [
        | inl y ↦ absurd (NotNamed-at k.name ms c m d.0 h (sym ((text_eq_iff k.name m.name).0 y)))
        | inr n ↦ rw (n, find_link) link
      ],
    )

valid_url-true :
    (input url warning : Str) → valid_url input ≡ (url, warning, true) → is_iso_url url ≡ true
unfolding valid_url
valid_url-true input url warning h = elim (Bool-cases (is_iso_url input)) [
  | inl y ↦
      let same = rw (y, valid_url) at h in subst (λ u. is_iso_url u ≡ true) (ap (λ p. p.0) same) y
  | inr n ↦ let same = rw (n, valid_url) at h in absurd (false≢true (ap (λ p. p.2) same))
]

module _ {W : Type 0} (env : Env W) where
  link_or_error-ok :
      (name url : Str) (o : Option Str) (s : App W)
      → (link_or_error env name o s).0 ≡ ok url
      → o ≡ some url
  link_or_error-ok name url none s h = absurd (value h)
  link_or_error-ok name url (some u) s h = ap some (ok-injective h)

  found_link :
      (name url : Str) (ms : List Mirror) (s : App W)
      → (link_or_error env name (find_link name ms) s).0 ≡ ok url
      → LinkIn ms url
  found_link name url ms s h =
      let (before, m, after, e, u, n, q) =
        find_link-LinkIn name url ms (link_or_error-ok name url _ s h) in
      (before, m, after, e, u, subst (λ k. NotNamed k before) (sym n) q)

  pick_mirror-LinkIn :
      (entry : Entry) (ms : List Mirror) (url : Str) (s : App W)
      → (pick_mirror env entry ms s).0 ≡ ok url
      → LinkIn ms url
  pick_mirror-LinkIn entry [] url s h = found_link (label entry) url [] s h
  pick_mirror-LinkIn entry (m ∷ ms) url s h =
      let (e, t, at, link) =
        proceed-ok (prompt (lit "Available Mirrors") (map mirror (m ∷ ms)) s)
          (λ e. link_or_error env (label e) (find_link (label e) (m ∷ ms))) h in
      found_link (label e) url (m ∷ ms) t link

  -- A link that `mirrorMenu` returns is that of a mirror of the chosen distribution, the first mirror with its name.
  mirror_menu-LinkIn :
      (entry : Entry) (url : Str) (s : App W)
      → (mirror_menu env entry s).0 ≡ ok url
      → LinkIn (distro_named env (label entry) s).mirrors url
  unfolding mirror_menu
  mirror_menu-LinkIn entry url s h =
      pick_mirror-LinkIn entry (distro_named env (label entry) s).mirrors url s h

  pick_by_number :
      (entry : Entry) (ms : List Mirror) (s : App W) (log : List Str) (c : ℕ) (m : Mirror)
      (es : List Event)
      → s.ui.log_file ≡ some log
      → DistinctNames ms
      → get_elem? ms c ≡ some m
      → c < 2 ^ 63
      → s.ui.events ≡ presses (singles (itoa c)) ++ press (lit "<Enter>") ∷ es
      → pick_mirror env entry ms s ≡ (
        ok m.url,
        record s {
          ui = record s.ui { events = es; menus = s.ui.menus ++ lit "Available Mirrors" ∷ [] };
        },
      )
  unfolding prompt label special_warning
  pick_by_number entry [] s log c m es file distinct at fits typed = cc
  pick_by_number entry (k ∷ ms) s log c m es file distinct at fits typed =
      let (there, link) = find_link_at (k ∷ ms) c m distinct at in
      rw
        (prompt_menu_entry_by_number label (lit "Available Mirrors") (map mirror (k ∷ ms)) [] log
          s.ui c (mirror m) es file there fits refl typed)
        (rw (link, link_or_error))

  -- Where no two mirrors have one name and the log file can be read, the digits of a mirror's number and Enter make `mirrorMenu` return the link of that mirror.
  pub mirror_menu_by_number :
      (entry : Entry) (s : App W) (log : List Str) (c : ℕ) (m : Mirror) (es : List Event)
      → s.ui.log_file ≡ some log
      → DistinctNames (distro_named env (label entry) s).mirrors
      → get_elem? (distro_named env (label entry) s).mirrors c ≡ some m
      → c < 2 ^ 63
      → s.ui.events ≡ presses (singles (itoa c)) ++ press (lit "<Enter>") ∷ es
      → mirror_menu env entry s ≡ (
        ok m.url,
        record s {
          ui = record s.ui { events = es; menus = s.ui.menus ++ lit "Available Mirrors" ∷ [] };
        },
      )
  unfolding mirror_menu
  mirror_menu_by_number entry s log c m es file distinct at fits typed =
      pick_by_number entry (distro_named env (label entry) s).mirrors s log c m es file distinct at
        fits typed

  -- The link of a distribution that is not in the menu is typed in, and has the form of a link to an ISO: `validURL` accepts it.
  pub choose_link-is_iso_url :
      (entry : Entry) (url : Str) (s : App W)
      → text_eq (label entry) (lit "Other Distro") ≡ true
      → (choose_link env entry s).0 ≡ ok url
      → is_iso_url url ≡ true
  unfolding choose_link
  choose_link-is_iso_url entry url s other h =
      let typed : (prompt_text_input (lit "Enter URL:") valid_url s.ui).0 ≡ ok url =
        (rw (other, choose_link) at h) in
      let (input, warning, e) =
        subst (Accepted valid_url) typed
          (prompt_text_input-Accepted (lit "Enter URL:") valid_url s.ui) in
      valid_url-true input url warning e
