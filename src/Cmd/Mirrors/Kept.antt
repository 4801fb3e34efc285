-- ===== src/Cmd/Mirrors/Kept.antt =====
-- The download menu adds no events.
use webboot.Prelude.{
  ℕ, ◌≤◌, Bool, true, false, Str, lit, text_eq, is_empty, List, [], ◌∷◌, ◌++◌, Option, none, some,
  map, Bool-cases, inl, inr,
}
use webboot.FilePath.{base}
use webboot.Menu.TextInput.{prompt_text_input}
use webboot.Menu.Confirm.{prompt_confirmation}
use webboot.Menu.Taking.{Took-Kept, left, prompt_text_input-Took, prompt_confirmation-Took}
use webboot.Os.{wrap_error}
use webboot.Bootiso.Checksum.{verify_checksum}
use webboot.Cmd.Types.{Mirror, Distro, Entry, config, mirror, label}
use webboot.Cmd.Utils.{find_distro, supported_distro_entries, valid_url}
use webboot.Cmd.App.{Env, App, in_ui, in_os, prompt}
use webboot.Cmd.App.Events.{
  events_left, Keeping, proceed-Keeping, in_ui-Keeping, in_os-Keeping, prompt-Keeping,
  wrap_error-Keeping,
}
use webboot.Cmd.Download.{download, download_path}
use webboot.Cmd.Download.Kept.{download-Keeping, download_path-Keeping}
use webboot.Cmd.Mirrors.{
  find_link, link_or_error, pick_mirror, distro_named, mirror_menu, proceed_anyway, judge,
  check_distro, display_checksum_prompt, choose_link, fetch, exec_download,
}

module _ {W : Type 0} (env : Env W) where
  link_or_error-Keeping :
      (k : ℕ) (name : Str) (o : Option Str) (s : App W)
      → events_left s ≤ k
      → Keeping k (link_or_error env name o s)
  link_or_error-Keeping k name none s h = h
  link_or_error-Keeping k name (some url) s h = h

  pick_mirror-Keeping :
      (k : ℕ) (entry : Entry) (ms : List Mirror) (s : App W)
      → events_left s ≤ k
      → Keeping k (pick_mirror env entry ms s)
  pick_mirror-Keeping k entry [] s h =
      link_or_error-Keeping k (label entry) (find_link (label entry) []) s h
  pick_mirror-Keeping k entry (m ∷ ms) s h =
      proceed-Keeping k (prompt _ (map mirror (m ∷ ms)) s) _
        (prompt-Keeping k _ (map mirror (m ∷ ms)) s h)
        (λ e t le. link_or_error-Keeping k (label e) (find_link (label e) (m ∷ ms)) t le)

  proceed_anyway-Keeping :
      (k : ℕ) (question : Str) (s : App W)
      → events_left s ≤ k
      → Keeping k (proceed_anyway env question s)
  unfolding proceed_anyway
  proceed_anyway-Keeping k question s h =
      proceed-Keeping k (wrap_error _ (in_ui (prompt_confirmation question)) s) _
        (wrap_error-Keeping k _ (in_ui (prompt_confirmation question)) s (
          in_ui-Keeping k (prompt_confirmation question) s
            (λ u. Took-Kept left (left u) _ (prompt_confirmation-Took question u)) h))
        (λ a t le. le)

  judge-Keeping :
      (k : ℕ) (wanted : Str) (valid : Bool) (calc : Str) (s : App W)
      → events_left s ≤ k
      → Keeping k (judge env wanted (valid, calc) s)
  judge-Keeping k wanted true calc s h = h
  judge-Keeping k wanted false calc s h = proceed_anyway-Keeping k _ s h

  check_distro-Keeping :
      (k : ℕ) (path : Str) (o : Option Distro) (s : App W)
      → events_left s ≤ k
      → Keeping k (check_distro env path o s)
  check_distro-Keeping k path none s h = h
  check_distro-Keeping k path (some d) s h = elim (Bool-cases (is_empty d.checksum)) [
    | inl y ↦ rw (y, check_distro) (proceed_anyway-Keeping k _ s h)
    | inr n ↦
        rw (n, check_distro)
          (proceed-Keeping k
            (wrap_error _
              (in_os (verify_checksum env.machine env.hashes path d.checksum d.checksum_type)) s)
            _
            (wrap_error-Keeping k _
              (in_os (verify_checksum env.machine env.hashes path d.checksum d.checksum_type)) s
              (in_os-Keeping k
                (verify_checksum env.machine env.hashes path d.checksum d.checksum_type) s h))
            (λ v t le. judge-Keeping k d.checksum v.0 v.1 t le))
  ]

  pub choose_link-Keeping :
      (k : ℕ) (entry : Entry) (s : App W) → events_left s ≤ k → Keeping k (choose_link env entry s)
  unfolding choose_link mirror_menu
  choose_link-Keeping k entry s h = elim (Bool-cases (text_eq (label entry) (lit "Other Distro"))) [
    | inl y ↦
        rw (y, choose_link)
          (in_ui-Keeping k (prompt_text_input (lit "Enter URL:") valid_url) s
            (λ u. Took-Kept left (left u) _ (prompt_text_input-Took (lit "Enter URL:") valid_url u))
            h)
    | inr n ↦
        rw (n, choose_link)
          (pick_mirror-Keeping k entry (distro_named env (label entry) s).mirrors s h)
  ]

  pub fetch-Keeping :
      (k : ℕ) (cache_dir distro link name : Str) (s : App W)
      → events_left s ≤ k
      → Keeping k (fetch env cache_dir distro link name s)
  unfolding fetch display_checksum_prompt
  fetch-Keeping k cache_dir distro link name s h =
      proceed-Keeping k (download_path env _ cache_dir name s) _
        (download_path-Keeping env k _ cache_dir name s h)
        (λ path t le.
          proceed-Keeping k (wrap_error _ (download env link path) t) _
            (wrap_error-Keeping k _ (download env link path) t
              (download-Keeping env k link path t le))
            (λ _ u le2.
              proceed-Keeping k (display_checksum_prompt env distro path u) _
                (check_distro-Keeping k path (find_distro distro u.supported_distros) u le2)
                (λ o v le3. le3)))

  pub exec_download-Keeping :
      (k : ℕ) (cache_dir : Str) (s : App W)
      → events_left s ≤ k
      → Keeping k (exec_download env cache_dir s)
  unfolding exec_download
  exec_download-Keeping k cache_dir s h =
      proceed-Keeping k (prompt _ (supported_distro_entries s.supported_distros ++ config _ ∷ []) s)
        _ (prompt-Keeping k _ (supported_distro_entries s.supported_distros ++ config _ ∷ []) s h)
        (λ entry t le.
          proceed-Keeping k (choose_link env entry t) _ (choose_link-Keeping k entry t le)
            (λ link u le2. fetch-Keeping k cache_dir (label entry) link (base link) u le2))
