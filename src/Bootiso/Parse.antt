-- ===== src/Bootiso/Parse.antt =====
-- pkg/bootiso: `parseConfigFile` and `ParseConfigFromISO`. The parsers of u-root are parameters.
pub mod Cleanup
use webboot.Prelude.{Bool, true, false, Str, lit, text_eq, List, [], ◌∷◌, ◌++◌, if◌then◌else◌}
use webboot.Exec.{
  Error, other, message, Res, ok, err, blocked, panicked, exited, Exec, pure, ◌>>=◌, ◌>>◌,
}
use webboot.Os.{
  Call, temp_dir, remove_all, loop_new, mount_loop, unmount, Machine, Os, call, defer, wrap_error,
  ignore_error,
}
use webboot.Bootiso.Image.{OsImage}

-- `block.GetBlockDevices`, `syslinux.ParseLocalConfig` and `grub.ParseLocalConfig`.
pub record Parsers (W : Type 0) : Type 0 where
  pub get_block_devices : Exec (Os W) (List Str)
  pub syslinux : Str → Exec (Os W) (List OsImage)
  pub grub : Str → List Str → Exec (Os W) (List OsImage)

-- `fmt.Errorf(text+"%v", err)`. A stack trace in the text is left out.
abbrev pub with_text : Str → Error → Error
with_text text e = other (text ++ message e)

module _ {W : Type 0} (parsers : Parsers W) where
  -- The choice after syslinux was tried: its images, if there are any, or else those of grub.
  abbrev pub or_grub : Str → List Str → Res (List OsImage) × Os W → Res (List OsImage) × Os W
  or_grub dir devs (ok [], s) = parsers.grub dir devs s
  or_grub dir devs (ok (i ∷ is), s) = (ok (i ∷ is), s)
  or_grub dir devs (err e, s) = parsers.grub dir devs s
  or_grub dir devs (blocked, s) = (blocked, s)
  or_grub dir devs (panicked, s) = (panicked, s)
  or_grub dir devs (exited n, s) = (exited n, s)

  unfoldable pub by_type : Str → Str → List Str → Exec (Os W) (List OsImage)
  by_type dir type devs s =
      if text_eq type (lit "syslinux")
      then parsers.syslinux dir s
      else if text_eq type (lit "grub")
      then parsers.grub dir devs s
      else or_grub dir devs (parsers.syslinux dir s)

  unfoldable pub parse_config_file : Str → Str → Exec (Os W) (List OsImage)
  unfolding wrap_error by_type
  parse_config_file dir type = do
    devs ←
        wrap_error (with_text (lit "Error on block.GetBlockDevices; in , and got "))
          parsers.get_block_devices
    by_type dir type devs

module _ {W : Type 0} (machine : Machine W) (parsers : Parsers W) where
  -- What stands behind the mount.
  abbrev read_mounted : Str → Str → Exec (Os W) (List OsImage)
  read_mounted dir type =
      wrap_error (with_text (lit "Error parsing config: ")) (parse_config_file parsers dir type)

  abbrev in_dir : Str → Str → Str → Exec (Os W) (List OsImage)
  in_dir iso type dir = do
    dev ← wrap_error (with_text (lit "Error creating loop device: ")) (call machine (loop_new iso))
    mp ←
        wrap_error (with_text (lit "Error mounting loop device: "))
          (call machine (mount_loop dev dir))
    defer (ignore_error (call machine (unmount mp))) (read_mounted dir type)

  unfoldable pub parse_config_from_iso : Str → Str → Exec (Os W) (List OsImage)
  unfolding wrap_error ignore_error call defer
  parse_config_from_iso iso type = do
    dir ←
        wrap_error (with_text (lit "Error creating mount dir: "))
          (call machine (temp_dir (lit "mnt-")))
    defer (ignore_error (call machine (remove_all dir))) (in_dir iso type dir)
