-- ===== src/Menu/Entries/Members.antt =====
-- The entry that `PromptMenuEntry` returns is one of its entries.
use mathlib.Core.Path.{subst}
use mathlib.Core.Option.{some-injective}
use webboot.Prelude.{
  ℕ, zero, suc, Str, lit, List, [], ◌∷◌, some, get_elem?, Option-cases, ◌≡◌, inl, inr,
}
use webboot.Exec.{Res, ok, err, blocked, panicked, exited}
use webboot.Exec.Inversion.{Post, Post-after}
use webboot.Menu.Ui.{Ui, announce, read_log}
use webboot.Menu.Options.{parsing_menu_option}
use webboot.Menu.Entries.{entry_at, options, choose, prompt_menu_entry}

abbrev pub All : {E : Type 0} → (E → Type 0) → List E → Type 0
All P [] = Unit
All P (e ∷ es) = P e × All P es

pub All-get_elem? :
    {E : Type 0} (P : E → Type 0) (es : List E) (c : ℕ) {e : E}
    → All P es
    → get_elem? es c ≡ some e
    → P e
All-get_elem? P [] c h g = absurd (cc)
All-get_elem? P (d ∷ es) zero h g = subst P (some-injective _ _ g) h.0
All-get_elem? P (d ∷ es) (suc c) h g = All-get_elem? P es c h.1 g

module _ {E : Type 0} (label : E → Str) (P : E → Type 0) where
  entry_at-Post :
      (es : List E) (r : Res ℕ) (u : Ui) → All P es → Post (λ e u. P e) (entry_at label es r, u)
  entry_at-Post es (ok c) u h = elim (Option-cases (get_elem? es c)) [
    | inl out ↦ rw (out, entry_at) tt
    | inr (e, at) ↦ rw (at, entry_at) (All-get_elem? P es c h at)
  ]
  entry_at-Post es (err e) u h = tt
  entry_at-Post es blocked u h = tt
  entry_at-Post es panicked u h = tt
  entry_at-Post es (exited n) u h = tt

  -- What holds of all the entries holds of the one that is returned.
  pub prompt_menu_entry-Post :
      (title : Str) (es : List E) (warnings : List Str) (u : Ui)
      → All P es
      → Post (λ e u. P e) (prompt_menu_entry label title es warnings u)
  unfolding prompt_menu_entry choose
  prompt_menu_entry-Post title es warnings u h = Post-after P (announce title u) _ λ _ v.
      Post-after P (read_log v) _ λ _ w.
        let (r, events) =
          parsing_menu_option (options label title es warnings)
            (lit "<Esc> to go back, <Ctrl+d> to exit") w.events in
        entry_at-Post es r (record w { events = events }) h
