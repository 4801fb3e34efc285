-- ===== src/Cmd/Main/Navigation.antt =====
-- How the menus of `main` follow each other.
use webboot.Prelude.{lit, [], ◌++◌, ◌≡◌, sym, ap, ◌∙◌}
use webboot.Exec.{Error, back_request, exit_request, canceled, other, ok}
use webboot.Exec.Inversion.{proceed-eq, value}
use webboot.Cmd.App.{App}
use webboot.Cmd.Main.{handle_error, report, error_text, show_text, add_log, reset_buffers}

-- The buffers are empty and the log has one more text; a request leaves the state as it was.
abbrev pub Handled : {W : Type 0} → Error → App W → App W → Type 0
Handled back_request s t = t ≡ s
Handled exit_request s t = ⊥
Handled canceled s t =
    (t.tmp_buffer ≡ [])
    × (t.wifi_stdout ≡ [])
    × (t.wifi_stderr ≡ [])
    × (t.log_buffer ≡ s.log_buffer ++ (error_text canceled s ++ lit "\n"))
    × (t.os ≡ s.os)
Handled (other m) s t =
    (t.tmp_buffer ≡ [])
    × (t.wifi_stdout ≡ [])
    × (t.wifi_stderr ≡ [])
    × (t.log_buffer ≡ s.log_buffer ++ (error_text (other m) s ++ lit "\n"))
    × (t.os ≡ s.os)

module _ {W : Type 0} where
  reported :
      (e : Error) (s t : App W)
      → report e s ≡ (ok tt, t)
      → (t.tmp_buffer ≡ [])
        × (t.wifi_stdout ≡ [])
        × (t.wifi_stderr ≡ [])
        × (t.log_buffer ≡ s.log_buffer ++ (error_text e s ++ lit "\n"))
        × (t.os ≡ s.os)
  unfolding report show_text
  reported e s t h =
      let (u, s1, shown, reset) =
        proceed-eq (show_text (error_text e s) (add_log (error_text e s) s)) (λ _. reset_buffers)
          h in
      (
        ap (λ p. p.1.tmp_buffer) (sym reset),
        ap (λ p. p.1.wifi_stdout) (sym reset),
        ap (λ p. p.1.wifi_stderr) (sym reset),
        ap (λ p. p.1.log_buffer) (sym reset) ∙ ap (λ p. p.1.log_buffer) (sym shown),
        ap (λ p. p.1.os) (sym reset) ∙ ap (λ p. p.1.os) (sym shown),
      )

  -- `handleError` returns only for errors that do not ask to leave. A request to go back changes nothing; any other error is added to the log, with what the buffers held, and the three buffers are emptied.
  pub handle_error-Handled :
      (e : Error) (s t : App W) → handle_error e s ≡ (ok tt, t) → Handled e s t
  unfolding handle_error
  handle_error-Handled back_request s t h = ap (λ p. p.1) (sym h)
  handle_error-Handled exit_request s t h = value (ap (λ p. p.0) h)
  handle_error-Handled canceled s t h = reported canceled s t h
  handle_error-Handled (other m) s t h = reported (other m) s t h
