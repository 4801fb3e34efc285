-- ===== src/Bootiso/Boot.antt =====
-- pkg/bootiso: `BootFromPmem`, `BootCachedISO` and the kexec commands. Loading an image and the
-- jump into it are calls of the machine.
pub mod Kexec
use webboot.Prelude.{
  is_empty, ◌&&◌, ◌==◌, if◌then◌else◌, Str, lit, List, [], ◌∷◌, ◌++◌, Option, none, some, ◌≡◌, refl,
  ap, ◌∙◌,
}
use webboot.Exec.{
  Error, other, Res, ok, err, blocked, panicked, exited, Exec, pure, fail, proceed, ◌>>=◌, ◌>>◌,
}
use webboot.Os.{
  Call, temp_dir, temp_file, remove_all, open_append, open_file, read_file, stat, copy,
  copy_unzipped, close, sync, mount_iso, run_program, load_linux, kexec_reboot, Machine, Os, call,
  defer, wrap_error, ignore_error, dropped,
}
use webboot.Bootiso.Image.{LinuxImage, OsImage, find_config_option_by_label}
use webboot.Bootiso.Parse.{Parsers, with_text, parse_config_file}

-- `strings.TrimSuffix(s, "\n")`.
unfoldable pub trim_newline : Str → Str
trim_newline [] = []
trim_newline (c ∷ s) = let rest = trim_newline s in if is_empty s && (c == 10) then [] else c ∷ rest

module _ {W : Type 0} (machine : Machine W) where
  -- `linuxImage.Load(true)`.
  unfoldable pub load : LinuxImage → Exec (Os W) Str
  unfolding call
  load li = call machine (load_linux li.kernel li.initrd li.cmdline)

  -- The image is loaded, then the machine jumps into it.
  unfoldable pub load_and_reboot : LinuxImage → Exec (Os W) (Unit {0})
  unfolding load call
  load_and_reboot li = load li >>= λ _. call machine kexec_reboot >>= λ _. pure tt

  -- `copyToFile`, from a reader that the given call copies.
  unfoldable pub copy_to_file : (Str → Call) → Exec (Os W) Str
  unfolding call defer ignore_error wrap_error
  copy_to_file copy_from = do
    f ←
        wrap_error (with_text (lit "Error on ioutil.TempFile; in , and got "))
          (call machine (temp_file (lit "webboot")))
    defer (ignore_error (call machine (close f))) (
        wrap_error (with_text (lit "Error on io.Copy; in , and got ")) (call machine (copy_from f))
        >>= λ _.
            wrap_error (with_text (lit "Error on f.Sync; in , and got ")) (call machine (sync f))
            >>= λ _.
                wrap_error (with_text (lit "Error on os.Open; in , and got "))
                  (call machine (open_file f))
                >>= λ _. pure f)

  -- The command with its arguments; the output in the text of the error is left out.
  unfoldable pub kexec : Str → List Str → Exec (Os W) (Unit {0})
  unfolding call wrap_error
  kexec text kargs =
      wrap_error (with_text text) (call machine (run_program (lit "/sbin/kexec" ∷ kargs))) >>= λ _.
      pure tt

  abbrev first_args : LinuxImage → List Str
  first_args li =
      lit "-d" ∷ lit "-l" ∷ lit "--entry-32bit" ∷ (lit "--command-line=" ++ li.cmdline) ∷ []

  -- `if li.Initrd != nil { … }` and what follows it, for the copy `k` of the kernel.
  unfoldable pub kexec_load_with : LinuxImage → Str → Option Str → Exec (Os W) (Unit {0})
  unfolding copy_to_file kexec defer ignore_error call
  kexec_load_with li k none = kexec (lit "Load failed; output , err ") (first_args li ++ k ∷ [])
  kexec_load_with li k (some initrd) = do
    i ← copy_to_file (λ f. copy f initrd)
    defer (ignore_error (call machine (close i))) (
        kexec (lit "Load failed; output , err ")
          (first_args li ++ ((lit "--initrd=" ++ i) ∷ k ∷ [])))

  abbrev kexec_load_kernel : LinuxImage → Option Str → Exec (Os W) (Unit {0})
  kexec_load_kernel li none = fail (other (lit "LinuxImage.Kernel must be non-nil"))
  kexec_load_kernel li (some kernel) = copy_to_file (λ f. copy_unzipped f kernel) >>= λ k.
      defer (ignore_error (call machine (close k))) (kexec_load_with li k li.initrd)

  unfoldable pub cmd_kexec_load : LinuxImage → Exec (Os W) (Unit {0})
  unfolding copy_to_file kexec_load_with defer ignore_error call
  cmd_kexec_load li = kexec_load_kernel li li.kernel

  unfoldable pub cmd_kexec_reboot : Exec (Os W) (Unit {0})
  unfolding kexec
  cmd_kexec_reboot = kexec (lit "Exec failed; output , err ") (lit "-d" ∷ lit "-e" ∷ [])

  -- `if _, err := os.Stat("/sbin/kexec"); err != nil { … }`.
  abbrev by_stat : LinuxImage → Res Str × Os W → Res (Unit {0}) × Os W
  by_stat li (ok a, s) = load_and_reboot li s
  by_stat li (err e, s) = (cmd_kexec_load li >> cmd_kexec_reboot >> load_and_reboot li) s
  by_stat li (blocked, s) = (blocked, s)
  by_stat li (panicked, s) = (panicked, s)
  by_stat li (exited n, s) = (exited n, s)

  abbrev pub with_cmdline : LinuxImage → Str → LinuxImage
  with_cmdline li cmdline = record li { cmdline = cmdline }

  abbrev boot_linux : Str → Option LinuxImage → Exec (Os W) (Unit {0})
  boot_linux params none s =
      (err (other (lit "Error converting from boot.OSImage to boot.LinuxImage")), s)
  boot_linux params (some li) s =
      by_stat (with_cmdline li (li.cmdline ++ (lit " " ++ params)))
        (call machine (stat (lit "/sbin/kexec")) s)

  unfoldable pub boot_cached_iso : OsImage → Str → Exec (Os W) (Unit {0})
  unfolding call load_and_reboot cmd_kexec_load cmd_kexec_reboot
  boot_cached_iso image params = boot_linux params image.linux

module _ {W : Type 0} (machine : Machine W) (parsers : Parsers W) where
  abbrev boot_local : Option LinuxImage → Exec (Os W) (Unit {0})
  boot_local none = fail (other (lit "Error converting from boot.OSImage to boot.LinuxImage"))
  boot_local (some li) = do
    local ←
        wrap_error (λ e. other (lit "Error accessing /proc/cmdline"))
          (call machine (read_file (lit "/proc/cmdline")))
    load_and_reboot machine
        (with_cmdline machine li (trim_newline local ++ (lit " " ++ li.cmdline)))

  abbrev boot_found : Option OsImage → Exec (Os W) (Unit {0})
  boot_found none = fail (other (lit "Config option with the requested label does not exist"))
  boot_found (some image) = boot_local image.linux

  -- What stands behind `defer os.RemoveAll(tmp)`.
  unfoldable pub boot_mounted : Str → Str → Str → Exec (Os W) (Unit {0})
  unfolding wrap_error call parse_config_file find_config_option_by_label load_and_reboot
  boot_mounted tmp label type =
      wrap_error (with_text (lit "Error mounting pmem0 to temp directory: "))
        (call machine (mount_iso (lit "/dev/pmem0") tmp))
      >>= λ _.
          wrap_error (with_text (lit "Error retrieving syslinux config options: "))
            (parse_config_file parsers tmp type)
          >>= λ configs. boot_found (find_config_option_by_label configs label)

  -- What stands behind `defer iso.Close()`.
  unfoldable pub boot_copied : Str → Str → Str → Str → Exec (Os W) (Unit {0})
  unfolding wrap_error call boot_mounted defer ignore_error
  boot_copied pmem iso label type =
      wrap_error (with_text (lit "Error copying from ISO to pmem: ")) (call machine (copy pmem iso))
      >>= λ _.
          wrap_error (with_text (lit "Error closing persistent memory device: "))
            (call machine (close pmem))
          >>= λ _.
              wrap_error (with_text (lit "Error creating temp directory: "))
                (call machine (temp_dir (lit "mnt")))
              >>= λ tmp.
                  defer (ignore_error (call machine (remove_all tmp))) (boot_mounted tmp label type)

  unfoldable pub boot_from_pmem : Str → Str → Str → Exec (Os W) (Unit {0})
  unfolding wrap_error call boot_copied defer ignore_error
  boot_from_pmem path label type = do
    pmem ←
        wrap_error (with_text (lit "Error opening persistent memory device: "))
          (call machine (open_append (lit "/dev/pmem0")))
    iso ← wrap_error (with_text (lit "Error opening ISO: ")) (call machine (open_file path))
    defer (ignore_error (call machine (close iso))) (boot_copied pmem iso label type)
