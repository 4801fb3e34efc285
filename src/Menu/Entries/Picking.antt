-- ===== src/Menu/Entries/Picking.antt =====
-- Which entry `PromptMenuEntry` returns.
use webboot.Prelude.{
  ℕ, suc, ◌+◌, ◌<◌, ◌^◌, Str, lit, itoa, List, [], ◌∷◌, ◌++◌, ◌≡◌, ◌≢◌, refl, ap, ◌∙◌, arith, none,
  some, length, get_elem?, get_elem?-some, get_elem?-lt,
}
use webboot.Exec.{IsRequest, Res, ok, err, blocked, panicked, exited}
use webboot.Menu.Event.{Event, AllNames, press, presses}
use webboot.Menu.Options.{special_warning}
use webboot.Menu.Options.Choosing.{
  IsChoice, parsing_menu_option-IsChoice, singles, choose_by_number,
}
use webboot.Menu.Ui.{Ui, read_log-some}
use webboot.Menu.Entries.{numbered, entry_at, options, choose, prompt_menu_entry}

module _ {E : Type 0} (label : E → Str) where
  length-numbered : (i : ℕ) (entries : List E) → length (numbered label i entries) ≡ length entries
  unfolding numbered
  length-numbered i [] = refl
  length-numbered i (e ∷ es) = ap suc (length-numbered (i + 1) es)

-- A returned value is the entry at a place that has no warning.
abbrev pub Picks : {E : Type 0} → List E → List Str → Res E → Type 0
Picks entries warnings (ok e) =
    (c : ℕ) × (get_elem? entries c ≡ some e) × (special_warning warnings c ≡ none)
Picks entries warnings (err e) = IsRequest e
Picks entries warnings blocked = Unit
Picks entries warnings panicked = ⊥
Picks entries warnings (exited n) = ⊥

module _ {E : Type 0} (label : E → Str) where
  entry_at-Picks :
      (title : Str) (entries : List E) (warnings : List Str) (r : Res ℕ)
      → IsChoice (options label title entries warnings) r
      → Picks entries warnings (entry_at label entries r)
  entry_at-Picks title entries warnings (ok c) (h, w) =
      let (e, at) = get_elem?-some entries c (omega (arith, h, length-numbered label 0 entries)) in
      rw (at, entry_at, Picks) (c, at, w)
  entry_at-Picks title entries warnings (err e) h = h
  entry_at-Picks title entries warnings blocked h = tt
  entry_at-Picks title entries warnings panicked h = h
  entry_at-Picks title entries warnings (exited n) h = h

  prompt-choose :
      (title : Str) (entries : List E) (warnings : List Str) (u : Ui) {log : List Str}
      → u.log_file ≡ some log
      → prompt_menu_entry label title entries warnings u
        ≡ choose label title entries warnings (record u { menus = u.menus ++ title ∷ [] })
  unfolding prompt_menu_entry
  prompt-choose title entries warnings u file =
      rw (read_log-some (record u { menus = u.menus ++ title ∷ [] }) file, prompt_menu_entry)

  -- If the log file can be read, there are entries and no key has the empty name, then
  -- `PromptMenuEntry` returns one of the entries, one without a warning of its own, or one of the
  -- two requests, or it waits. It does not panic, and it sends the title to `menus` once.
  pub prompt_menu_entry-Picks :
      (title : Str) (entries : List E) (warnings log : List Str) (u : Ui)
      → u.log_file ≡ some log
      → 0 < length entries
      → AllNames (λ k. k ≢ []) u.events
      → Picks entries warnings (prompt_menu_entry label title entries warnings u).0
        × ((prompt_menu_entry label title entries warnings u).1.menus ≡ u.menus ++ title ∷ [])
  unfolding prompt_menu_entry
  prompt_menu_entry-Picks title entries warnings log u file some_entry named =
      rw (prompt-choose title entries warnings u file) (
        entry_at-Picks title entries warnings _ (
            parsing_menu_option-IsChoice (options label title entries warnings) _ u.events
              (omega (arith, length-numbered label 0 entries)) named),
        refl,
      )

  -- If the log file can be read, the digits of an entry's number and Enter choose that entry, if it has no warning.
  pub prompt_menu_entry_by_number :
      (title : Str) (entries : List E) (warnings log : List Str) (u : Ui) (c : ℕ) (e : E)
      (es : List Event)
      → u.log_file ≡ some log
      → get_elem? entries c ≡ some e
      → c < 2 ^ 63
      → special_warning warnings c ≡ none
      → u.events ≡ presses (singles (itoa c)) ++ press (lit "<Enter>") ∷ es
      → prompt_menu_entry label title entries warnings u
        ≡ (ok e, record u { events = es; menus = u.menus ++ title ∷ [] })
  unfolding prompt_menu_entry
  prompt_menu_entry_by_number title entries warnings log u c e es file at fits quiet typed =
      prompt-choose title entries warnings u file
      ∙ rw (typed, choose)
          (rw
            (
              choose_by_number (options label title entries warnings) _ c es
                  (omega (arith, get_elem?-lt entries c at, length-numbered label 0 entries)) fits
                  quiet,
              choose,
            )
            (rw (at, entry_at)))
