-- ===== src/Cmd/Boot.antt =====
-- cmds/webboot/webboot.go: `(*ISO).exec`, `(*DirOption).exec` and `getCachedDirectory`.
pub mod Outcomes
pub mod Kept
use webboot.Prelude.{
  ℕ, zero, suc, Bool, true, false, Str, lit, text_eq, is_empty, List, [], ◌∷◌, ◌++◌, Option, none,
  some, map, if◌then◌else◌,
}
use webboot.Exec.{
  Error, other, message, Res, ok, err, blocked, panicked, exited, Exec, pure, fail, ◌>>=◌, ◌>>◌,
}
use webboot.FilePath.{base, ext, join}
use webboot.Os.{Call, stat, temp_dir, call, wrap_error}
use webboot.Bootiso.Image.{OsImage, Config}
use webboot.Bootiso.Parse.{with_text, parse_config_from_iso}
use webboot.Bootiso.Custom.{load_custom_configs}
use webboot.Bootiso.Boot.{boot_cached_iso}
use webboot.Cmd.Types.{
  BlockDev, Distro, CacheDevice, new_cache_device, Entry, iso, dir_option, boot_config, label,
}
use webboot.Cmd.Utils.{Distros, infer_iso_type, find_distro, supported_distro_entries}
use webboot.Cmd.App.{FileInfo, Env, App, in_ui, in_os, in_world, or_text, prompt}
use webboot.Cmd.Mirrors.{or_zero, distro_named}

-- `strings.ReplaceAll(s, old, "")`. The counter skips what is left of an occurrence.
unfoldable pub starts_with : Str → Str → Bool
starts_with [] s = true
starts_with (p ∷ ps) [] = false
starts_with (p ∷ ps) (c ∷ s) =
    let rest = starts_with ps s in if text_eq (p ∷ []) (c ∷ []) then rest else false

abbrev less_one : Str → ℕ
less_one [] = 0
less_one (c ∷ []) = 0
less_one (c ∷ d ∷ s) = suc (less_one (d ∷ s))

erase_from : Str → ℕ → Str → Str
unfolding starts_with
erase_from old n [] = []
erase_from old (suc n) (c ∷ s) = erase_from old n s
erase_from old zero (c ∷ s) =
    let skipped = erase_from old (less_one old) s in
    let kept = erase_from old zero s in if starts_with old (c ∷ s) then skipped else c ∷ kept

unfoldable pub erase_all : Str → Str → Str
unfolding erase_from
erase_all s old = if is_empty old then s else erase_from old 0 s

module _ {W : Type 0} (env : Env W) where
  -- The distribution: inferred from the name, or else asked for.
  abbrev infer_or_ask : Option Distro → Exec (App W) Distro
  infer_or_ask (some d) s = (ok d, s)
  infer_or_ask none s =
      (prompt (lit "ISO Type") (supported_distro_entries s.supported_distros) >>= λ entry s'.
      (ok (distro_named env (label entry) s'), s'))
        s

  unfoldable pub distro_of : Str → Exec (App W) Distro
  unfolding infer_iso_type find_distro supported_distro_entries prompt label distro_named base
  distro_of path s =
      infer_or_ask
        (find_distro (infer_iso_type env.matches (base path) s.supported_distros)
          s.supported_distros)
        s

  -- `if distro.BootConfig != "" { … }`.
  unfoldable pub parsed_configs : Str → Str → Exec (App W) (List OsImage)
  unfolding parse_config_from_iso
  parsed_configs path type =
      if is_empty type
      then pure []
      else in_os (parse_config_from_iso env.machine env.parsers path type)

  -- `if len(distro.CustomConfigs) != 0 { … }`.
  unfoldable pub custom_configs : Str → List Config → Exec (App W) (List OsImage)
  unfolding load_custom_configs
  custom_configs path [] = pure []
  custom_configs path (c ∷ cs) = in_os (load_custom_configs env.machine path (c ∷ cs))

  abbrev image_of : Entry → Exec (App W) OsImage
  image_of (boot_config image) = pure image
  image_of _ = fail (other (lit "Could not convert selection to a boot image."))

  abbrev choose_image : List OsImage → Exec (App W) OsImage
  choose_image [] = fail (other (lit "No valid configs were found."))
  choose_image (c ∷ cs) =
      prompt (lit "Configs") (map boot_config (c ∷ cs)) >>= λ entry. image_of entry

  -- The images of the ISO, and the choice of one.
  unfoldable pub select_image : Str → Distro → Exec (App W) OsImage
  unfolding parsed_configs custom_configs prompt
  select_image path d = do
    parsed ← parsed_configs path d.boot_config
    custom ← custom_configs path d.custom_configs
    choose_image (parsed ++ custom)

  -- `cacheDev.IsoPath = strings.ReplaceAll(i.path, cacheDev.MountPoint, "")`.
  unfoldable pub set_iso_path : Str → Exec (App W) (Unit {0})
  unfolding erase_all
  set_iso_path path s = (
    ok tt,
    record s {
      cache_dev = record s.cache_dev { iso_path = erase_all path s.cache_dev.mount_point };
    },
  )

  abbrev expand : Str → Exec (App W) Str
  expand template s = (env.expand template s.cache_dev, s)

  abbrev disabled : OsImage → Str → Error
  disabled image params = other (
      lit "Booting is disabled (see --dryrun flag), but otherwise would be [config.image "
      ++ (env.show image ++ (lit ", kernelparams.String() " ++ (params ++ lit "]."))))

  unfoldable pub boot_or_report : Bool → OsImage → Str → Exec (App W) (Unit {0})
  unfolding boot_cached_iso
  boot_or_report false image params = fail (disabled image params)
  boot_or_report true image params =
      in_os (boot_cached_iso env.machine image (params ++ lit " waitusb=10"))

  -- A boot that comes back is an error.
  abbrev pub boot_now : Bool → OsImage → Str → Exec (App W) (Unit {0})
  boot_now boot image params = boot_or_report boot image params >>= λ _.
      fail (other (lit "kexec failed, but gave no error. Consider trying kexec-tools."))

  -- What `exec` does with the chosen image.
  unfoldable pub boot_image : Str → Bool → Str → OsImage → Exec (App W) (Unit {0})
  unfolding set_iso_path boot_or_report
  boot_image path boot template image =
      set_iso_path path >>= λ _. expand template >>= λ params. boot_now boot image params

  -- `(*ISO).exec`.
  unfoldable pub exec_iso : Str → Bool → Exec (App W) (Unit {0})
  unfolding distro_of select_image boot_image
  exec_iso path boot = distro_of path >>= λ d.
      select_image path d >>= λ image. boot_image path boot d.kernel_params image

  -- The entries of a directory: its directories and ISO files.
  unfoldable pub dir_entries : Str → List FileInfo → List Entry
  unfolding ext join
  dir_entries path [] = []
  dir_entries path (f ∷ fs) =
      let rest = dir_entries path fs in
      if f.is_dir
      then dir_option f.name (join path f.name) ∷ rest
      else if text_eq (ext f.name) (lit ".iso")
      then iso f.name (join path f.name) ∷ rest
      else rest

  -- `(*DirOption).exec`.
  unfoldable pub exec_dir : Str → Exec (App W) Entry
  unfolding dir_entries prompt
  exec_dir path = do
    infos ← in_world (λ w. (or_text (env.read_dir path w).0, (env.read_dir path w).1))
    prompt (lit "Distros") (dir_entries path infos)

  -- `cacheDev = NewCacheDevice(device, mp.Path)`.
  abbrev keep_device : BlockDev → Str → Str → Exec (App W) Str
  keep_device d mount_point cache s =
      (ok cache, record s { cache_dev = new_cache_device d mount_point })

  -- A failed call leads on with the loop.
  abbrev or_continue :
      {A : Type 0} → Res A × App W → (A → Exec (App W) Str) → Exec (App W) Str → Res Str × App W
  or_continue (ok a, s) found continue = found a s
  or_continue (err e, s) found continue = continue s
  or_continue (blocked, s) found continue = (blocked, s)
  or_continue (panicked, s) found continue = (panicked, s)
  or_continue (exited n, s) found continue = (exited n, s)

  unfoldable pub search_devices : Str → List BlockDev → Exec (App W) Str
  unfolding join call new_cache_device
  search_devices mounts [] s = (
    err (
        other (
          lit
            "Do not find the cache directory: Expected a /Images under at the root of a block device(USB)")),
    s,
  )
  search_devices mounts (d ∷ ds) s =
      or_continue (in_world (env.try_mount (join (lit "/dev/") d.name) (join mounts d.name)) s)
        (λ mp s'.
          or_continue (in_os (call env.machine (stat (join mp (lit "Images")))) s')
            (λ _. keep_device d mp (join mp (lit "Images"))) (search_devices mounts ds))
        (search_devices mounts ds)

  -- `getCachedDirectory`.
  unfoldable pub get_cached_directory : Exec (App W) Str
  unfolding wrap_error call search_devices
  get_cached_directory = do
    devices ←
        wrap_error (λ e. other (lit "No available block devices to boot from"))
          (in_world env.block_devices)
    mounts ←
        wrap_error (with_text (lit "Cannot create tmpdir: "))
          (in_os (call env.machine (temp_dir (lit "temp-device-"))))
    search_devices mounts devices
