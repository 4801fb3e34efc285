-- ===== src/Cmd/Mirrors.antt =====
-- cmds/webboot/webboot.go: the download menu, with `mirrorMenu` and `displayChecksumPrompt`.
pub mod Next
pub mod Links
pub mod Kept
use webboot.Prelude.{
  ℕ, Bool, true, false, Str, lit, text_eq, is_empty, List, [], ◌∷◌, ◌++◌, Option, none, some, map,
  if◌then◌else◌,
}
use webboot.Exec.{
  Error, other, message, Res, ok, err, blocked, panicked, exited, Exec, pure, fail, ◌>>=◌, ◌>>◌,
}
use webboot.FilePath.{base}
use webboot.Menu.TextInput.{prompt_text_input}
use webboot.Menu.Confirm.{prompt_confirmation}
use webboot.Os.{wrap_error}
use webboot.Bootiso.Parse.{with_text}
use webboot.Bootiso.Checksum.{verify_checksum}
use webboot.Cmd.Types.{
  Mirror, Distro, zero_distro, Entry, iso, config, download_option, mirror, label,
}
use webboot.Cmd.Utils.{Distros, find_distro, supported_distro_entries, valid_url}
use webboot.Cmd.App.{Env, App, in_ui, in_os, prompt}
use webboot.Cmd.Download.{download, download_path, instead_of_canceled}

abbrev pub or_zero : Option Distro → Distro
or_zero none = zero_distro
or_zero (some d) = d

-- The link of the first mirror with a name.
unfoldable pub find_link : Str → List Mirror → Option Str
find_link name [] = none
find_link name (m ∷ ms) = if text_eq m.name name then some m.url else find_link name ms

module _ {W : Type 0} (env : Env W) where
  abbrev pub link_or_error : Str → Option Str → Exec (App W) Str
  link_or_error name (some url) s = (ok url, s)
  link_or_error name none s = (err (other (lit "Mirror not found: " ++ name)), s)

  abbrev pub pick_mirror : Entry → List Mirror → Exec (App W) Str
  pick_mirror entry [] = link_or_error (label entry) (find_link (label entry) [])
  pick_mirror entry (m ∷ ms) = prompt (lit "Available Mirrors") (map mirror (m ∷ ms)) >>= λ e.
      link_or_error (label e) (find_link (label e) (m ∷ ms))

  -- `supportedDistros[name]`, where a missing key gives the zero value.
  unfoldable pub distro_named : Str → App W → Distro
  unfolding find_distro
  distro_named name s = or_zero (find_distro name s.supported_distros)

  unfoldable pub mirror_menu : Entry → Exec (App W) Str
  unfolding prompt find_link label distro_named
  mirror_menu entry s = pick_mirror entry (distro_named (label entry) s).mirrors s

  abbrev unless : Bool → Option Entry
  unless true = none
  unless false = some download_option

  -- Ask whether to go on; the answer no leads back to the download menu.
  unfoldable pub proceed_anyway : Str → Exec (App W) (Option Entry)
  unfolding prompt_confirmation wrap_error
  proceed_anyway question = do
    accept ←
        wrap_error (with_text (lit "Failed to prompt confirmation: "))
          (in_ui (prompt_confirmation question))
    pure (unless accept)

  abbrev incorrect : Str → Str → Str
  incorrect wanted calculated =
      lit "Checksum was not correct. The correct checksum is "
      ++ (wanted
          ++ (lit " and the downloaded ISO's checksum is "
              ++ (calculated ++ lit ". Proceed anyway?")))

  abbrev judge : Str → Bool × Str → Exec (App W) (Option Entry)
  judge wanted (true, calculated) = pure none
  judge wanted (false, calculated) = proceed_anyway (incorrect wanted calculated)

  abbrev check_distro : Str → Option Distro → Exec (App W) (Option Entry)
  check_distro path none s = (ok none, s)
  check_distro path (some d) s =
      if is_empty d.checksum
      then proceed_anyway (lit "This distro does not have a checksum. Proceed anyway?") s
      else (wrap_error (with_text (lit "Failed to verify checksum: "))
              (in_os (verify_checksum env.machine env.hashes path d.checksum d.checksum_type))
            >>= judge d.checksum)
          s

  unfoldable pub display_checksum_prompt : Str → Str → Exec (App W) (Option Entry)
  unfolding proceed_anyway verify_checksum wrap_error find_distro
  display_checksum_prompt name path s = check_distro path (find_distro name s.supported_distros) s

  -- The link to the ISO: typed in, or that of a mirror.
  unfoldable pub choose_link : Entry → Exec (App W) Str
  unfolding label prompt_text_input valid_url mirror_menu
  choose_link entry =
      if text_eq (label entry) (lit "Other Distro")
      then in_ui (prompt_text_input (lit "Enter URL:") valid_url)
      else mirror_menu entry

  abbrev or_iso : Str → Str → Option Entry → Entry
  or_iso name path (some e) = e
  or_iso name path none = iso name path

  -- The file is downloaded and its checksum looked at.
  unfoldable pub fetch : Str → Str → Str → Str → Exec (App W) Entry
  unfolding download download_path wrap_error display_checksum_prompt
  fetch cache_dir distro link name = do
    path ← download_path env (lit "Fail to create the downloaded dir :") cache_dir name
    wrap_error (instead_of_canceled env (lit "Download was canceled.")) (download env link path)
    next ← display_checksum_prompt distro path
    pure (or_iso name path next)

  -- `(*DownloadOption).exec`.
  unfoldable pub exec_download : Str → Exec (App W) Entry
  unfolding supported_distro_entries prompt label choose_link fetch base
  exec_download cache_dir s =
      (prompt (lit "Linux Distros")
            (supported_distro_entries s.supported_distros ++ config (lit "Other Distro") ∷ [])
          >>= λ entry. choose_link entry >>= λ link. fetch cache_dir (label entry) link (base link))
        s
