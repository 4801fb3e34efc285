-- ===== src/Cmd/Main.antt =====
-- cmds/webboot/webboot.go: the main menu, errors, the log, and the loop of `main`, which has
-- as many rounds as its fuel says.
pub mod Navigation
pub mod Rounds
pub mod Loop
pub mod Below
pub mod Inside
pub mod Back
use webboot.Prelude.{
  ℕ, zero, suc, ◌-◌, Bool, true, false, not, ◌&&◌, Str, lit, text_eq, is_empty, split, List, [],
  ◌∷◌, ◌++◌, Option, none, some, length, ltb, drop, if◌then◌else◌,
}
use webboot.Exec.{
  Error, back_request, exit_request, canceled, other, message, Res, ok, err, blocked, panicked,
  exited, Exec, pure, ◌>>=◌, ◌>>◌,
}
use webboot.FilePath.{dir, clean}
use webboot.Menu.Message.{display_result}
use webboot.Os.{ignore_error}
use webboot.Cmd.Types.{
  Entry, iso, dir_option, config, interface, download_option, log_option, network, boot_config,
  mirror,
}
use webboot.Cmd.Utils.{Distros}
use webboot.Cmd.App.{Env, App, in_ui, prompt}
use webboot.Cmd.Download.{distro_data}
use webboot.Cmd.Network.{connected, setup_network}
use webboot.Cmd.Mirrors.{exec_download}
use webboot.Cmd.Boot.{exec_iso, exec_dir, get_cached_directory}

-- The flags of the command line.
pub record Flags : Type 0 where
  pub dir : Str
  pub network : Bool
  pub dry_run : Bool

unfoldable pub main_entries : Str → List Entry
main_entries [] = download_option ∷ log_option ∷ []
main_entries (c ∷ cache_dir) =
    dir_option (lit "Use Cached ISO") (c ∷ cache_dir) ∷ download_option ∷ log_option ∷ []

abbrev pub distros_link : Str
distros_link = lit "https://raw.githubusercontent.com/u-root/webboot/main/cmds/webboot/distros.json"

-- The last kilobyte of the log.
abbrev pub tail_of : Str → Str
tail_of text = if ltb 1024 (length text) then drop (length text - 1024) text else text

module _ {W : Type 0} where
  -- A request to go back shows the menu again; any other error is fatal.
  abbrev again_or_fatal : Exec (App W) Entry → Res Entry × App W → Res Entry × App W
  again_or_fatal retry (ok e, s) = (ok e, s)
  again_or_fatal retry (err back_request, s) = retry s
  again_or_fatal retry (err exit_request, s) = (exited 1, s)
  again_or_fatal retry (err canceled, s) = (exited 1, s)
  again_or_fatal retry (err (other m), s) = (exited 1, s)
  again_or_fatal retry (blocked, s) = (blocked, s)
  again_or_fatal retry (panicked, s) = (panicked, s)
  again_or_fatal retry (exited n, s) = (exited n, s)

  unfoldable pub main_menu_rounds : ℕ → Str → Exec (App W) Entry
  unfolding prompt main_entries
  main_menu_rounds zero cache_dir s = (blocked, s)
  main_menu_rounds (suc n) cache_dir s =
      again_or_fatal (main_menu_rounds n cache_dir)
        (prompt (lit "Webboot") (main_entries cache_dir) s)

  -- `getMainMenu`: each round takes an event.
  unfoldable pub get_main_menu : Str → Exec (App W) Entry
  unfolding main_menu_rounds
  get_main_menu cache_dir s = main_menu_rounds (suc (length s.ui.events)) cache_dir s

  -- `menu.DisplayResult(strings.Split(text, "\n"), …)`; its error is dropped.
  unfoldable pub show_text : Str → Exec (App W) (Unit {0})
  unfolding display_result ignore_error
  show_text text = in_ui (ignore_error (display_result (split 10 text)))

  abbrev error_text : Error → App W → Str
  error_text e s = message e ++ (lit "\n" ++ (s.tmp_buffer ++ (s.wifi_stdout ++ s.wifi_stderr)))

  -- `fmt.Fprintln(&logBuffer, text)`.
  abbrev add_log : Str → App W → App W
  add_log text s = record s { log_buffer = s.log_buffer ++ (text ++ lit "\n") }

  abbrev reset_buffers : Exec (App W) (Unit {0})
  reset_buffers s = (ok tt, record s { tmp_buffer = []; wifi_stdout = []; wifi_stderr = [] })

  unfoldable pub report : Error → Exec (App W) (Unit {0})
  unfolding show_text message
  report e s = (show_text (error_text e s) >> reset_buffers) (add_log (error_text e s) s)

  unfoldable pub handle_error : Error → Exec (App W) (Unit {0})
  unfolding report
  handle_error exit_request s = (exited 0, s)
  handle_error back_request s = (ok tt, s)
  handle_error canceled s = report canceled s
  handle_error (other m) s = report (other m) s

  unfoldable pub show_log : Exec (App W) (Unit {0})
  unfolding show_text
  show_log s = show_text (tail_of s.log_buffer) s

module _ {W : Type 0} (env : Env W) (flags : Flags) (cache_dir : Str) where
  unfoldable pub recover : Error → Exec (App W) Entry
  unfolding handle_error get_main_menu
  recover e = handle_error e >>= λ _. get_main_menu cache_dir

  abbrev or_recover : {A : Type 0} → (A → Entry) → Res A × App W → Res Entry × App W
  or_recover next (ok a, s) = (ok (next a), s)
  or_recover next (err e, s) = recover e s
  or_recover next (blocked, s) = (blocked, s)
  or_recover next (panicked, s) = (panicked, s)
  or_recover next (exited n, s) = (exited n, s)

  -- `if *network && !activeConnection { … }`.
  abbrev set_up : Bool → Exec (App W) (Unit {0})
  set_up active = if flags.network && not active then ignore_error (setup_network env) else pure tt

  -- `supportedDistros, err = distroData(…)`: an error leaves no distributions, and is forgotten.
  abbrev keep_distros : Res Distros × App W → Res (Unit {0}) × App W
  keep_distros (ok ds, s) = (ok tt, record s { supported_distros = ds })
  keep_distros (err e, s) = (ok tt, record s { supported_distros = [] })
  keep_distros (blocked, s) = (blocked, s)
  keep_distros (panicked, s) = (panicked, s)
  keep_distros (exited n, s) = (exited n, s)

  unfoldable pub load_distros : Exec (App W) (Unit {0})
  unfolding distro_data
  load_distros s = keep_distros (distro_data env cache_dir distros_link s)

  unfoldable pub run_download : Exec (App W) Entry
  unfolding connected setup_network load_distros exec_download ignore_error recover
  run_download s =
      (connected env >>= λ active. set_up active >>= λ _.
      load_distros >>= λ _ s'. or_recover (λ e. e) (exec_download env cache_dir s'))
        s

  -- Back from a directory below the root of the cache leads to its parent.
  abbrev pub leave_dir : Str → Res Entry × App W → Res Entry × App W
  leave_dir path (ok e, s) = (ok e, s)
  leave_dir path (err back_request, s) =
      if text_eq path cache_dir then recover back_request s else (ok (dir_option [] (dir path)), s)
  leave_dir path (err exit_request, s) = recover exit_request s
  leave_dir path (err canceled, s) = recover canceled s
  leave_dir path (err (other m), s) = recover (other m) s
  leave_dir path (blocked, s) = (blocked, s)
  leave_dir path (panicked, s) = (panicked, s)
  leave_dir path (exited n, s) = (exited n, s)

  -- The type of an entry that `main` does not know, as `%T` prints it.
  abbrev pub unknown : Str → Exec (App W) Entry
  unknown type = recover (other (lit "Unknown menu type " ++ (type ++ lit "!\n")))

  -- The switch of the loop of `main`: the next entry.
  unfoldable pub round : Entry → Exec (App W) Entry
  unfolding show_log get_main_menu run_download exec_iso exec_dir recover dir
  round log_option = show_log >>= λ _. get_main_menu cache_dir
  round download_option = run_download
  round (iso name path) =
      λ s. or_recover (λ _. iso name path) (exec_iso env path (not flags.dry_run) s)
  round (dir_option name path) = λ s. leave_dir path (exec_dir env path s)
  round (config l) = unknown (lit "*main.Config")
  round (interface l) = unknown (lit "*main.Interface")
  round (network n) = unknown (lit "*main.Network")
  round (boot_config image) = unknown (lit "*main.BootConfig")
  round (mirror m) = unknown (lit "*main.Mirror")

  unfoldable pub rounds : ℕ → Entry → Exec (App W) (Unit {0})
  unfolding round
  rounds zero entry s = (blocked, s)
  rounds (suc n) entry s = (round entry >>= λ next. rounds n next) s

module _ {W : Type 0} (env : Env W) where
  abbrev found : Res Str × App W → Res Str × App W
  found (ok path, s) = (ok path, s)
  found (err e, s) = (ok [], s)
  found (blocked, s) = (blocked, s)
  found (panicked, s) = (panicked, s)
  found (exited n, s) = (exited n, s)

  -- The cache directory: the flag's, or that of a device, or none.
  unfoldable pub cache_dir_of : Str → Exec (App W) Str
  unfolding clean get_cached_directory
  cache_dir_of [] s = found (get_cached_directory env s)
  cache_dir_of (c ∷ d) s = (ok (clean (c ∷ d)), s)

  -- `main`, once the menu is initialised.
  unfoldable pub main : ℕ → Flags → Exec (App W) (Unit {0})
  unfolding cache_dir_of get_main_menu rounds
  main n flags = cache_dir_of flags.dir >>= λ cache_dir.
      get_main_menu cache_dir >>= λ entry. rounds env flags cache_dir n entry
