-- ===== src/Cmd/Mirrors/Next.antt =====
-- The entry that follows the download menu.
use webboot.Prelude.{
  Bool, true, false, Str, lit, is_empty, [], ◌∷◌, ◌++◌, Option, none, some, Bool-cases, inl, inr,
}
use webboot.Exec.{Res}
use webboot.Exec.Inversion.{Post, Post-after, proceed-Post}
use webboot.FilePath.{base}
use webboot.Menu.Confirm.{prompt_confirmation}
use webboot.Os.{wrap_error}
use webboot.Bootiso.Parse.{with_text}
use webboot.Bootiso.Checksum.{verify_checksum}
use webboot.Cmd.Download.{download, download_path, instead_of_canceled}
use webboot.Cmd.Types.{Entry, iso, config, download_option, Distro, label}
use webboot.Cmd.Utils.{supported_distro_entries, find_distro}
use webboot.Cmd.App.{Env, App, in_ui, in_os, prompt}
use webboot.Cmd.Mirrors.{
  proceed_anyway, unless, judge, incorrect, check_distro, display_checksum_prompt, choose_link,
  or_iso, fetch, exec_download,
}

-- An ISO, or the download menu once more.
abbrev pub IsAfterDownload : Entry → Type 0
IsAfterDownload (iso name path) = Unit
IsAfterDownload download_option = Unit
IsAfterDownload _ = ⊥

abbrev MaybeAfter : Option Entry → Type 0
MaybeAfter none = Unit
MaybeAfter (some e) = IsAfterDownload e

module _ {W : Type 0} (env : Env W) where
  unless-MaybeAfter : (accept : Bool) → MaybeAfter (unless env accept)
  unless-MaybeAfter true = tt
  unless-MaybeAfter false = tt

  or_iso-IsAfterDownload :
      (name path : Str) (o : Option Entry) → MaybeAfter o → IsAfterDownload (or_iso env name path o)
  or_iso-IsAfterDownload name path none h = tt
  or_iso-IsAfterDownload name path (some e) h = h

  abbrev PostMaybe : Res (Option Entry) × App W → Type 0
  PostMaybe p = Post (λ o s. MaybeAfter o) p

  proceed_anyway-MaybeAfter :
      (question : Str) (s : App W) → PostMaybe (proceed_anyway env question s)
  unfolding proceed_anyway
  proceed_anyway-MaybeAfter question s =
      Post-after MaybeAfter
        (wrap_error (with_text (lit "Failed to prompt confirmation: "))
          (in_ui (prompt_confirmation question)) s)
        _ (λ accept t. unless-MaybeAfter accept)

  judge-MaybeAfter : (wanted : Str) (v : Bool × Str) (s : App W) → PostMaybe (judge env wanted v s)
  judge-MaybeAfter wanted (true, c) s = tt
  judge-MaybeAfter wanted (false, c) s = proceed_anyway-MaybeAfter (incorrect env wanted c) s

  check_distro-MaybeAfter :
      (path : Str) (d : Option Distro) (s : App W) → PostMaybe (check_distro env path d s)
  check_distro-MaybeAfter path none s = tt
  check_distro-MaybeAfter path (some d) s = elim (Bool-cases (is_empty d.checksum)) [
    | inl none_given ↦ rw (none_given, check_distro) (proceed_anyway-MaybeAfter _ s)
    | inr given ↦
        rw (given, check_distro)
          (Post-after MaybeAfter
            (wrap_error (with_text (lit "Failed to verify checksum: "))
              (in_os (verify_checksum env.machine env.hashes path d.checksum d.checksum_type)) s)
            _ (λ v t. judge-MaybeAfter d.checksum v t))
  ]

  fetch-IsAfterDownload :
      (cache distro link name : Str) (s : App W)
      → Post (λ e t. IsAfterDownload e) (fetch env cache distro link name s)
  unfolding fetch display_checksum_prompt
  fetch-IsAfterDownload cache distro link name s =
      Post-after IsAfterDownload
        (download_path env (lit "Fail to create the downloaded dir :") cache name s) _
        λ path t.
          Post-after IsAfterDownload
            (wrap_error (instead_of_canceled env (lit "Download was canceled."))
              (download env link path) t)
            _
            λ _ u.
              proceed-Post (λ o v. MaybeAfter o) (display_checksum_prompt env distro path u)
                (λ e v. IsAfterDownload e) _
                (check_distro-MaybeAfter path (find_distro distro u.supported_distros) u)
                (λ o v h. or_iso-IsAfterDownload name path o h)

  -- A download is followed by its ISO or by the download menu.
  pub exec_download-IsAfterDownload :
      (cache : Str) (s : App W) → Post (λ e t. IsAfterDownload e) (exec_download env cache s)
  unfolding exec_download
  exec_download-IsAfterDownload cache s =
      Post-after IsAfterDownload
        (prompt (lit "Linux Distros")
          (supported_distro_entries s.supported_distros ++ config (lit "Other Distro") ∷ []) s)
        _
        λ entry t.
          Post-after IsAfterDownload (choose_link env entry t) _
            λ link u. fetch-IsAfterDownload cache (label entry) link (base link) u
