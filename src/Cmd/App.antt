-- ===== src/Cmd/App.antt =====
-- cmds/webboot: the state of the program, and the code outside the repository that it uses.
pub mod Events
use webboot.Prelude.{◌⊎◌, inl, inr, ℕ, Bool, Str, List, []}
use webboot.Exec.{ok, err, other, Res, Exec}
use webboot.Menu.Ui.{Ui}
use webboot.Os.{Machine, Os}
use webboot.Wifi.Worker.{Commands, Host}
use webboot.Bootiso.Image.{OsImage}
use webboot.Bootiso.Parse.{Parsers}
use webboot.Bootiso.Checksum.{Hashes}
use webboot.Cmd.Types.{CacheDevice, BlockDev, Entry, label}
use webboot.Cmd.Utils.{Distros}
use webboot.Menu.Entries.{prompt_menu_entry}

-- A file of a directory: its name, and whether it is a directory.
pub record FileInfo : Type 0 where
  pub name : Str
  pub is_dir : Bool

-- The packages that are called. Each may change the world.
pub record Env (W : Type 0) : Type 0 where
  pub machine : Machine W
  pub commands : Commands W
  pub parsers : Parsers W
  pub hashes : Hashes
  -- `regexp.MatchString`.
  pub matches : Str → Str → Bool
  -- The status code and the status of a response.
  pub status : Str → ℕ × Str
  -- How many events come while a response is copied.
  pub arrivals : W → ℕ
  -- `ioutil.ReadDir`: the text of an error, or the files.
  pub read_dir : Str → W → (Str ⊎ List FileInfo) × W
  pub link_list : W → Res (List Str) × W
  pub block_devices : W → Res (List BlockDev) × W
  -- `mount.TryMount` of a device at a place: the path of the mount.
  pub try_mount : Str → Str → W → Res Str × W
  -- `json.Unmarshal` into a map of distributions.
  pub unmarshal : Str → Res Distros
  -- A template, executed on the cache device.
  pub expand : Str → CacheDevice → Res Str
  -- An image, as `%s` prints it.
  pub show : OsImage → Str
  -- `os.TempDir()`.
  pub os_temp_dir : Str
  -- The connection test of `connected`.
  pub get_google : W → Bool × W

-- The variables of the package, and the terminal.
pub record App (W : Type 0) : Type 0 where
  pub ui : Ui
  pub os : Os W
  pub wifi_stdout : Str
  pub wifi_stderr : Str
  pub log_buffer : Str
  pub tmp_buffer : Str
  pub cache_dev : CacheDevice
  pub supported_distros : Distros

abbrev pub or_text : {A : Type 0} → Str ⊎ A → Res A
or_text (inl text) = err (other text)
or_text (inr a) = ok a

module _ {W A : Type 0} where
  abbrev pub in_ui : Exec Ui A → Exec (App W) A
  in_ui m s = let (r, u) = m s.ui in (r, record s { ui = u })

  abbrev pub in_os : Exec (Os W) A → Exec (App W) A
  in_os m s = let (r, o) = m s.os in (r, record s { os = o })

  -- An action on the world alone.
  abbrev pub in_world : (W → Res A × W) → Exec (App W) A
  in_world f s = let (r, w) = f s.os.world in (r, record s { os = record s.os { world = w } })

  -- An action of a wifi worker, with the two buffers.
  abbrev pub in_host : Exec (Host W) A → Exec (App W) A
  in_host m s =
      let (r, h) =
        m (record { world = s.os.world; stdout = s.wifi_stdout; stderr = s.wifi_stderr }) in
      (
        r,
        record s {
          os = record s.os { world = h.world };
          wifi_stdout = h.stdout;
          wifi_stderr = h.stderr;
        },
      )

module _ {W : Type 0} where
  -- `menu.PromptMenuEntry(menuTitle, introwords, entries, …)`, without warnings.
  unfoldable pub prompt : Str → List Entry → Exec (App W) Entry
  unfolding prompt_menu_entry
  prompt title entries = in_ui (prompt_menu_entry label title entries [])
