-- ===== src/Tests/Disk.antt =====
-- `download` on a system that keeps files.
use webboot.Prelude.{
  true, Str, lit, text_eq, text_eq_refl, text_ne, [], ◌++◌, Option, none, some, if◌then◌else◌, ◌≡◌,
  ◌≢◌, refl, sym, ap, ◌∙◌, Bool-cases, inl, inr, text_eq_iff,
}
use webboot.Exec.{Res, ok, err, other, pure}
use webboot.Exec.Inversion.{ok-injective}
use webboot.Os.{
  http_get, temp_file, remove, remove_all, copy, seek_start, create_file, Machine, call, defer,
  ignore_error,
}
use webboot.Cmd.Utils.{listen_for_cancel}
use webboot.Cmd.App.{Env, App}
use webboot.Tests.Bootiso.{hashes}
use webboot.Cmd.Download.{download, sys, save_response, fill_cache, write_cache, watch}
use webboot.Cmd.Download.Disk.{Disk, Frame}
use webboot.Cmd.Download.Failure.{IsWhole, download-IsWhole}
use webboot.Cmd.Download.Stored.{download-stored}

-- What each name holds, and what is left to read of it.
pub record World : Type 0 where
  pub files : Str → Option Str
  pub left : Str → Option Str

unfoldable set : Str → Option Str → (Str → Option Str) → Str → Option Str
set f v m n = if text_eq f n then v else m n

set-same : (f : Str) (v : Option Str) (m : Str → Option Str) → set f v m f ≡ v
unfolding set
set-same f v m = rw (text_eq_refl f) refl

set-other : (f n : Str) (v : Option Str) (m : Str → Option Str) → f ≢ n → set f v m n ≡ m n
unfolding set
set-other f n v m ne = elim (Bool-cases (text_eq f n)) [
  | inl e ↦ absurd (ne ((text_eq_iff f n).0 e))
  | inr e ↦ rw e refl
]

abbrev appended : Option Str → Option Str → Option Str
appended (some old) (some new) = some (old ++ new)
appended none new = none
appended (some old) none = some old

-- A server has one text; there is one temporary file.
abbrev disk_machine : Machine World
disk_machine (http_get url) w =
    (ok (lit "resp"), record w { left = set (lit "resp") (some (lit "iso")) w.left })
disk_machine (temp_file pattern) w = (
  ok pattern,
  record { files = set pattern (some []) w.files; left = set pattern (some []) w.left },
)
disk_machine (copy to from) w = (
  ok [],
  record {
    files = set to (appended (w.files to) (w.left from)) w.files;
    left = set from (some []) w.left;
  },
)
disk_machine (seek_start f) w = (ok [], record w { left = set f (w.files f) w.left })
disk_machine (create_file f) w =
    (ok [], record { files = set f (some []) w.files; left = set f (some []) w.left })
disk_machine (remove f) w = (ok [], record w { files = set f none w.files })
disk_machine _ w = (ok [], w)

abbrev content : World → Str → Option Str
content w n = w.files n

abbrev left : World → Str → Option Str
left w n = w.left n

disk_machine-Disk : Disk disk_machine content left
disk_machine-Disk = record {
  made = λ pattern n w e.
      let same = ok-injective e in
      (
        ap (set pattern (some []) w.files) (sym same) ∙ set-same pattern (some []) w.files,
        λ ne. set-other pattern n (some []) w.left (λ p. ne (sym same ∙ p)),
      );
  copied =
      λ to from w e c l. set-same to (appended (w.files to) (w.left from)) w.files ∙ rw (c, l) refl;
  rewound = λ f w e. set-same f (w.files f) w.left;
  created = λ f n w e.
      (set-same f (some []) w.files, λ ne. set-other f n (some []) w.left (λ p. ne (sym p)));
  closed = λ f n w. refl;
  removed = λ f n w ne. set-other f n none w.files ne;
}

abbrev on_machine : {W : Type 0} → Machine W → Env W
on_machine machine = record {
  machine = machine;
  commands = record {
    run = λ args w. (record { stdout = []; stderr = []; error = none }, w);
    write_file = λ path text w. (none, w);
    open_log = λ w. (none, w);
    now = λ w. lit "now";
    write_log = λ text w. w;
    start = λ args w. w;
    passphrase = λ essid pass. ok pass;
  };
  parsers = record {
    get_block_devices = pure [];
    syslinux = λ d. pure [];
    grub = λ d devs. pure [];
  };
  hashes = hashes;
  matches = λ pattern name. text_eq pattern name;
  status = λ resp. (200, []);
  arrivals = λ w. 0;
  read_dir = λ path w. (inr [], w);
  link_list = λ w. (ok [], w);
  block_devices = λ w. (ok [], w);
  try_mount = λ dev place w. (ok place, w);
  unmarshal = λ content. ok [];
  expand = λ template dev. ok template;
  show = λ image. image.label;
  os_temp_dir = lit "/tmp";
  get_google = λ w. (true, w);
}

abbrev disk_env : Env World
disk_env = on_machine disk_machine

abbrev in_world : {W : Type 0} → W → App W
in_world world = record {
  ui = record { events = []; menus = []; log_file = none };
  os = record { world = world; trace = [] };
  wifi_stdout = [];
  wifi_stderr = [];
  log_buffer = [];
  tmp_buffer = [];
  cache_dev = record { name = []; uuid = []; mount_point = []; iso_path = [] };
  supported_distros = [];
}

abbrev empty_disk : App World
empty_disk = in_world (record { files = λ n. none; left = λ n. none })

abbrev asked : App World
asked = (sys disk_env (http_get (lit "u")) empty_disk).1

abbrev stored : App World
stored = (download disk_env (lit "u") (lit "p") empty_disk).1

download-stored_example : content stored.os.world (lit "p") ≡ some (lit "iso")
unfolding download save_response fill_cache write_cache watch listen_for_cancel sys call defer
    ignore_error set text_eq lit
download-stored_example =
    download-stored disk_env content left disk_machine-Disk (lit "u") (lit "p") (lit "resp")
      (lit "iso") empty_disk asked stored refl
      (λ temp e.
        let same : lit "iso-download-" ≡ temp = ok-injective e in
        (
          λ p. text_ne (lit "iso-download-") (lit "p") refl (same ∙ p),
          λ p. text_ne (lit "iso-download-") (lit "resp") refl (same ∙ p),
        ))
      refl refl

-- A system whose cache has no room for a file.
abbrev Files : Type 0
Files = Str → Option Str

abbrev room : Str → Res Str
room to = if text_eq to (lit "p") then err (other (lit "no space left on device")) else ok []

abbrev full_machine : Machine Files
full_machine (http_get url) m = (ok (lit "resp"), m)
full_machine (temp_file pattern) m = (ok pattern, set pattern (some []) m)
full_machine (copy to from) m = (room to, set to (some (lit "i")) m)
full_machine (create_file f) m = (ok [], set f (some []) m)
full_machine (remove f) m = (ok [], set f none m)
full_machine (remove_all f) m = (ok [], set f none m)
full_machine _ m = (ok [], m)

abbrev held : Files → Str → Option Str
held m n = m n

full_machine-Frame : Frame full_machine held
full_machine-Frame = record {
  fetched = λ url n m. refl;
  made = λ pattern n m ne. set-other pattern n (some []) m (ne pattern refl);
  copied = λ to from n m ne. set-other to n (some (lit "i")) m ne;
  rewound = λ f n m. refl;
  refused = λ f m h. cc;
  closed = λ f n m. refl;
  removed = λ f n m ne. set-other f n none m ne;
  gone = λ f m done. set-same f none m;
}

abbrev full_env : Env Files
full_env = on_machine full_machine

abbrev empty_files : App Files
empty_files = in_world (λ n. none)

abbrev failed : App Files
failed = (download full_env (lit "u") (lit "p") empty_files).1

download-IsWhole_example : IsWhole full_machine held (lit "p") none (held failed.os.world (lit "p"))
unfolding download save_response fill_cache write_cache watch listen_for_cancel sys call defer
    ignore_error set text_eq lit
download-IsWhole_example =
    download-IsWhole full_env held full_machine-Frame (lit "u") (lit "p")
      (other (lit "no space left on device")) empty_files failed
      (λ m temp e.
        let same : lit "iso-download-" ≡ temp = ok-injective e in
        λ p. text_ne (lit "iso-download-") (lit "p") refl (same ∙ p))
      refl
