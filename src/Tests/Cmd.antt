-- ===== src/Tests/Cmd.antt =====
-- cmds/webboot at fixed inputs.
use mathlib.Core.Bool.{false≢true}
use webboot.Prelude.{
  inr, ℕ, true, lit, itoa, text_eq, List, [], ◌∷◌, ◌++◌, none, some, map, ◌≡◌, refl, arith,
  if◌then◌else◌, text_ne, slice_from?, slice?, split, join,
}
use webboot.Exec.{other, message, ok, map_res}
use webboot.Menu.Event.{Event, press, presses, listen}
use webboot.Menu.Key.{key_of}
use webboot.Menu.Options.Choosing.{singles}
use webboot.Menu.TextInput.{always_valid, prompt_text_input, process_input}
use webboot.Menu.Ui.{announce}
use webboot.Menu.Message.{display_result, scroll}
use webboot.Menu.Wrap.{wrap_line, wrap_lines}
use webboot.Os.{http_get, temp_file, remove, close, call, ignore_error, defer}
use webboot.Os.Traces.{EndsWith}
use webboot.Wifi.Option as WifiOption
use webboot.Cmd.Types.{download_option, Mirror, Distro, config, label}
use webboot.Cmd.Utils.{
  Distros, infer_iso_type, supported_distro_entries, find_distro, is_iso_url, valid_url,
  listen_for_cancel, text_lt, insert, sort,
}
use webboot.Cmd.Utils.Sorting.{
  swap, any_match, supported_distro_entries-Reordered, infer_iso_type-Reordered,
}
use webboot.Cmd.App.{Env, App}
use webboot.Cmd.Download.{sys, download, save_response, fill_cache, write_cache, watch}
use webboot.Cmd.Download.Files.{download-cleans}
use webboot.Cmd.Mirrors.{mirror_menu, distro_named, choose_link}
use webboot.Cmd.Mirrors.Links.{mirror_menu_by_number}
use webboot.Cmd.Network.{network_rounds, setup_params, enter_credentials}
use webboot.Cmd.Network.Credentials.{ConfiguredFor, setup_params-ConfiguredFor}
use webboot.Cmd.Main.Loop.{rounds_enough}
use webboot.Cmd.Main.Rounds.{main_menu_rounds_enough}
use webboot.Cmd.Network.Rounds.{network_rounds_enough}
use webboot.Cmd.Main.{
  Flags, rounds, main_menu_rounds, get_main_menu, handle_error, report, show_text,
}
use webboot.Cmd.Main.Navigation.{Handled, handle_error-Handled}
use webboot.Tests.Bootiso.{machine, start, parsers, hashes}
use webboot.Tests.Wifi.{commands}

abbrev pub env : Env ℕ
env = record {
  machine = machine;
  commands = commands none;
  parsers = parsers;
  hashes = hashes;
  matches = λ pattern name. text_eq pattern name;
  status = λ resp. (200, []);
  arrivals = λ w. 0;
  read_dir = λ path w. (inr [], w);
  link_list = λ w. (ok [], w);
  block_devices = λ w. (ok [], w);
  try_mount = λ dev place w. (ok place, w);
  unmarshal = λ content. ok [];
  expand = λ template dev. ok template;
  show = λ image. image.label;
  os_temp_dir = lit "/tmp";
  get_google = λ w. (true, w);
}

abbrev mirrors : List Mirror
mirrors = record { name = lit "x"; url = lit "u" } ∷ record { name = lit "y"; url = lit "v" } ∷ []

abbrev arch : Distro
arch = record {
  iso_pattern = lit "arch.iso";
  checksum = [];
  checksum_type = [];
  boot_config = lit "syslinux";
  kernel_params = [];
  custom_configs = [];
  mirrors = mirrors;
}

abbrev tiny : Distro
tiny = record arch { iso_pattern = lit "tiny.iso" }

abbrev distros : Distros
distros = (lit "Tiny", tiny) ∷ (lit "Arch", arch) ∷ []

abbrev pub with_events : List Event → App ℕ
with_events events = record {
  ui = record { events = events; menus = []; log_file = some [] };
  os = start;
  wifi_stdout = lit "out";
  wifi_stderr = [];
  log_buffer = [];
  tmp_buffer = [];
  cache_dev = record { name = []; uuid = []; mount_point = []; iso_path = [] };
  supported_distros = distros;
}

supported_distro_entries_runs :
    supported_distro_entries distros ≡ config (lit "Arch") ∷ config (lit "Tiny") ∷ []
unfolding supported_distro_entries sort insert text_lt lit
supported_distro_entries_runs = refl

supported_distro_entries-Reordered_example :
    supported_distro_entries distros
    ≡ supported_distro_entries ((lit "Arch", arch) ∷ (lit "Tiny", tiny) ∷ [])
supported_distro_entries-Reordered_example =
    supported_distro_entries-Reordered distros ((lit "Arch", arch) ∷ (lit "Tiny", tiny) ∷ []) swap

infer_iso_type-Reordered_example :
    (infer_iso_type text_eq (lit "arch.iso") distros
      ≡ infer_iso_type text_eq (lit "arch.iso") ((lit "Arch", arch) ∷ (lit "Tiny", tiny) ∷ []))
    × (infer_iso_type text_eq (lit "arch.iso") distros
        ≡ (if any_match text_eq (lit "arch.iso") distros then lit "Arch" else []))
unfolding text_eq lit
infer_iso_type-Reordered_example =
    infer_iso_type-Reordered text_eq (lit "arch.iso") (lit "Arch") distros
      ((lit "Arch", arch) ∷ (lit "Tiny", tiny) ∷ []) swap
      ((λ h. absurd (false≢true h)), ((λ h. refl), tt))

-- Number 1 and Enter.
abbrev second : App ℕ
second = with_events (presses (singles (itoa 1)) ++ press (lit "<Enter>") ∷ [])

mirror_menu_by_number_example : mirror_menu env (config (lit "Arch")) second ≡ (
  ok (lit "v"),
  record second { ui = record second.ui { events = []; menus = lit "Available Mirrors" ∷ [] } },
)
unfolding label distro_named find_distro text_eq lit
mirror_menu_by_number_example =
    mirror_menu_by_number env (config (lit "Arch")) second [] 1
      (record { name = lit "y"; url = lit "v" }) [] refl
      ((text_ne (lit "y") (lit "x") refl, tt), (tt, tt)) refl (omega arith) refl

-- A typed link.
abbrev typing : App ℕ
typing =
    with_events (presses (map (λ c. c ∷ []) (lit "https://a/b.iso")) ++ press (lit "<Enter>") ∷ [])

choose_link_runs :
    (choose_link env (config (lit "Other Distro")) typing).0 ≡ ok (lit "https://a/b.iso")
unfolding choose_link label prompt_text_input announce process_input valid_url is_iso_url listen
    key_of text_eq lit slice_from? map_res
choose_link_runs = refl

abbrev home : WifiOption.Network
home = record { essid = lit "home"; auth_suite = WifiOption.wpa_eap }

abbrev credentials : App ℕ
credentials = with_events (presses (lit "p" ∷ lit "<Enter>" ∷ lit "i" ∷ lit "<Enter>" ∷ []))

setup_params_runs : (setup_params env home credentials).0 ≡ ok (lit "home" ∷ lit "p" ∷ lit "i" ∷ [])
unfolding enter_credentials always_valid prompt_text_input announce process_input listen key_of
    text_eq lit slice_from? map_res
setup_params_runs = refl

setup_params-ConfiguredFor_example :
    ConfiguredFor
      (λ essid pass. ok pass)
      (lit "home")
      WifiOption.wpa_eap
      credentials
      (lit "home" ∷ lit "p" ∷ lit "i" ∷ [])
setup_params-ConfiguredFor_example =
    setup_params-ConfiguredFor env (λ essid pass. ok pass) home
      (lit "home" ∷ lit "p" ∷ lit "i" ∷ []) credentials setup_params_runs

download-cleans_example :
    EndsWith
      (remove (lit "iso-download-") ∷ close [] ∷ [])
      (download env (lit "u") (lit "p") second).1.os.trace
unfolding download save_response fill_cache write_cache watch listen_for_cancel sys call defer
    ignore_error
download-cleans_example =
    download-cleans env (lit "u") (lit "p") [] [] (lit "iso-download-") second
      (sys env (http_get (lit "u")) second).1
      (sys env (temp_file (lit "iso-download-")) (sys env (http_get (lit "u")) second).1).1 refl
      refl refl tt

abbrev shown : App ℕ
shown = with_events (presses (lit "x" ∷ []))

handle_error-Handled_example :
    Handled (other (lit "bad")) shown (handle_error (other (lit "bad")) shown).1
unfolding handle_error report show_text ignore_error display_result announce scroll wrap_lines
    wrap_line message listen key_of text_eq lit slice? split join itoa
handle_error-Handled_example =
    handle_error-Handled (other (lit "bad")) shown (handle_error (other (lit "bad")) shown).1 refl

abbrev pub flags : Flags
flags = record { dir = lit "/i"; network = true; dry_run = true }

rounds_enough_example :
    rounds env flags (lit "/i") 9 download_option shown
    ≡ rounds env flags (lit "/i") 2 download_option shown
rounds_enough_example = rounds_enough env flags (lit "/i") 9 download_option shown (omega arith)

main_menu_rounds_enough_example :
    main_menu_rounds 9 (lit "/i") shown ≡ get_main_menu (lit "/i") shown
main_menu_rounds_enough_example = main_menu_rounds_enough 9 (lit "/i") shown (omega arith)

network_rounds_enough_example :
    network_rounds env 9 (record { interface = lit "wlan0" }) shown
    ≡ network_rounds env 2 (record { interface = lit "wlan0" }) shown
network_rounds_enough_example =
    network_rounds_enough env 9 (record { interface = lit "wlan0" }) shown (omega arith)
