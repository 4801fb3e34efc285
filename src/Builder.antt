-- ===== src/Builder.antt =====
-- webboot.go at the root: the program that builds the boot image. It looks for the tools to embed
-- and then runs five commands, the last of them u-root.
pub mod Wanted
pub mod Building
use webboot.Prelude.{
  ℕ, Bool, true, false, not, Str, lit, is_empty, List, [], ◌∷◌, ◌++◌, ◌||◌, ◌==◌, leb, ◌&&◌,
  if◌then◌else◌,
}
use webboot.Exec.{panicked, Exec, pure, ◌>>=◌, ◌>>◌}
use webboot.Os.{run_in, getwd, look_path, stat, Machine, Os, call, must, succeeds}
use webboot.FilePath.{join}

-- `cmd`: an empty directory is the current one.
pub record Command : Type 0 where
  pub args : List Str
  pub dir : Str

-- The values of the flags.
pub record Flags : Type 0 where
  pub uroot : Str
  pub cmds : Str
  pub ncmds : Str
  pub bz_image : Str
  pub iso : Str
  pub wifi : Bool

-- The white space among the ASCII bytes.
abbrev is_space : ℕ → Bool
is_space c = c == b' ' || leb 9 c && leb c 13

abbrev into_field : ℕ → Bool → List Str → List Str
into_field c true [] = (c ∷ []) ∷ []
into_field c true (f ∷ fs) = (c ∷ f) ∷ fs
into_field c false fs = (c ∷ []) ∷ fs

-- The first byte goes on with the first field that follows.
abbrev starts_field : Str → Bool
starts_field [] = false
starts_field (c ∷ s) = not (is_space c)

-- `strings.Fields`.
unfoldable pub fields : Str → List Str
fields [] = []
fields (c ∷ s) =
    let rest = fields s in if is_space c then rest else into_field c (starts_field s) rest

abbrev args_at_first : List Str
args_at_first =
    lit "go"
    ∷ lit "run"
    ∷ lit "github.com/u-root/u-root/."
    ∷ lit "-files"
    ∷ lit "/etc/ssl/certs"
    ∷ []

abbrev kexec_args : Bool → List Str
kexec_args true = lit "-files=/sbin/kexec" ∷ []
kexec_args false = []

-- The tools of the system that stand before the webboot command, and the one behind it.
abbrev pub tools : List Str
tools =
    lit "iwconfig"
    ∷ lit "iwlist"
    ∷ lit "wpa_supplicant"
    ∷ lit "wpa_action"
    ∷ lit "wpa_cli"
    ∷ lit "wpa_passphrase"
    ∷ []

abbrev command_dir : Str → Str
command_dir cwd = join (join cwd (lit "cmds")) (lit "webboot")

abbrev webboot_args : Str → List Str
webboot_args cwd =
    lit "-files" ∷ (join (command_dir cwd) (lit "webboot") ++ lit ":bbin/webboot") ∷ []

-- `-files` for an optional file, under the name that it gets in the image.
abbrev option_args : Str → Str → List Str
option_args file name = if is_empty file then [] else lit "-files" ∷ (file ++ name) ∷ []

-- The commands, when the arguments of u-root have been collected.
unfoldable pub commands : Flags → Str → List Str → List Command
commands flags cwd args =
    record { args = lit "date" ∷ []; dir = [] }
    ∷ record { args = lit "ls" ∷ []; dir = [] }
    ∷ record { args = lit "pwd" ∷ []; dir = [] }
    ∷ record { args = lit "go" ∷ lit "build" ∷ []; dir = command_dir cwd }
    ∷ record { args = (args ++ fields flags.uroot) ++ flags.cmds ∷ flags.ncmds ∷ []; dir = [] }
    ∷ []

-- `debug("Run %v", cmd)` and the last message write to the log and are left out.
module _ {W : Type 0} (machine : Machine W) where
  unfoldable pub extra_bin_must : Str → Exec (Os W) Str
  extra_bin_must n = must (call machine (look_path n))

  -- The arguments that embed one tool of the system.
  embed : Str → Exec (Os W) (List Str)
  unfolding extra_bin_must
  embed n = extra_bin_must n >>= λ p. pure (lit "-files" ∷ p ∷ [])

  embed_all : List Str → Exec (Os W) (List Str)
  unfolding embed
  embed_all [] = pure []
  embed_all (n ∷ ns) = do a ← embed n; b ← embed_all ns; pure (a ++ b)

  -- The arguments for wifi.
  unfoldable pub wifi_args : Str → Bool → Exec (Os W) (List Str)
  unfolding embed_all
  wifi_args cwd false = pure []
  wifi_args cwd true = do
    before ← embed_all tools
    behind ← embed (lit "strace")
    pure (before ++ (webboot_args cwd ++ behind))

  unfoldable pub collect_args : Flags → Str → Exec (Os W) (List Str)
  unfolding wifi_args
  collect_args flags cwd = do
    found ← succeeds (call machine (stat (lit "/sbin/kexec")))
    wifi ← wifi_args cwd flags.wifi
    pure (
        args_at_first
        ++ (kexec_args found
            ++ (wifi
                ++ (option_args flags.bz_image (lit ":bzImage")
                    ++ option_args flags.iso (lit ":iso")))))

  abbrev run_args : Str → List Str → Exec (Os W) (Unit {0})
  run_args d [] s = (panicked, s)
  run_args d (a ∷ args) s = (must (call machine (run_in d (a ∷ args))) >>= λ _. pure tt) s

  -- `exec.Command(cmd.args[0], …)` and `c.Run()`; with no arguments the index is out of range.
  unfoldable pub run_command : Command → Exec (Os W) (Unit {0})
  run_command c = run_args c.dir c.args

  unfoldable pub run_all : List Command → Exec (Os W) (Unit {0})
  unfolding run_command
  run_all [] = pure tt
  run_all (c ∷ cs) = run_command c >> run_all cs

  unfoldable pub main : Flags → Exec (Os W) (Unit {0})
  unfolding collect_args commands run_all
  main flags = do
    cwd ← must (call machine getwd)
    args ← collect_args flags cwd
    run_all (commands flags cwd args)
