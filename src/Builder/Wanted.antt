-- ===== src/Builder/Wanted.antt =====
-- What webboot.go is to look for and to run, written from the files that an image needs.
use webboot.Prelude.{Bool, true, false, Str, lit, List, [], ◌∷◌, ◌++◌, map}
use webboot.Os.{Call, getwd, look_path, stat}
use webboot.FilePath.{join}
use webboot.Builder.{Command, Flags, fields}

-- The arguments that embed tools, by the paths at which they are found.
abbrev pub embedded : (Str → Str) → List Str → List Str
embedded path [] = []
embedded path (n ∷ ns) = lit "-files" ∷ path n ∷ embedded path ns

abbrev pub wifi_tools : List Str
wifi_tools =
    lit "iwconfig"
    ∷ lit "iwlist"
    ∷ lit "wpa_supplicant"
    ∷ lit "wpa_action"
    ∷ lit "wpa_cli"
    ∷ lit "wpa_passphrase"
    ∷ []

-- For wifi: the tools, the webboot command under the working directory, and strace.
abbrev pub wifi_files : (Str → Str) → Str → Bool → List Str
wifi_files path cwd true =
    embedded path wifi_tools
    ++ (lit "-files"
        ∷ (join (join (join cwd (lit "cmds")) (lit "webboot")) (lit "webboot")
            ++ lit ":bbin/webboot")
        ∷ lit "-files"
        ∷ path (lit "strace")
        ∷ [])
wifi_files path cwd false = []

-- An optional file: no arguments if its name is empty.
abbrev pub optional_file : Str → Str → List Str
optional_file [] name = []
optional_file (c ∷ file) name = lit "-files" ∷ ((c ∷ file) ++ name) ∷ []

abbrev pub kexec_file : Bool → List Str
kexec_file true = lit "-files=/sbin/kexec" ∷ []
kexec_file false = []

-- The arguments of u-root before those of the flag `-u`.
abbrev pub u_root_args : Flags → Bool → (Str → Str) → Str → List Str
u_root_args flags kexec path cwd =
    (lit "go"
      ∷ lit "run"
      ∷ lit "github.com/u-root/u-root/."
      ∷ lit "-files"
      ∷ lit "/etc/ssl/certs"
      ∷ [])
    ++ (kexec_file kexec
        ++ (wifi_files path cwd flags.wifi
            ++ (optional_file flags.bz_image (lit ":bzImage")
                ++ optional_file flags.iso (lit ":iso"))))

-- The five commands with their directories: the last is u-root, with the arguments above, the words
-- of the flag `-u`, and the two lists of commands to build in.
abbrev pub builds : Flags → Bool → (Str → Str) → Str → List Command
builds flags kexec path cwd =
    record { args = lit "date" ∷ []; dir = [] }
    ∷ record { args = lit "ls" ∷ []; dir = [] }
    ∷ record { args = lit "pwd" ∷ []; dir = [] }
    ∷ record {
      args = lit "go" ∷ lit "build" ∷ [];
      dir = join (join cwd (lit "cmds")) (lit "webboot");
    }
    ∷ record {
      args =
          (u_root_args flags kexec path cwd ++ fields flags.uroot) ++ flags.cmds ∷ flags.ncmds ∷ [];
      dir = [];
    }
    ∷ []

abbrev pub wifi_lookups : Bool → List Call
wifi_lookups true = map look_path (wifi_tools ++ lit "strace" ∷ [])
wifi_lookups false = []

-- What the builder looks at before it runs commands.
abbrev pub lookups : Flags → List Call
lookups flags = getwd ∷ stat (lit "/sbin/kexec") ∷ wifi_lookups flags.wifi
