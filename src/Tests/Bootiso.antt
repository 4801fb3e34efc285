-- ===== src/Tests/Bootiso.antt =====
-- pkg/bootiso at fixed inputs, on a machine where every call succeeds.
use mathlib.Core.Path.{subst}
use webboot.Prelude.{
  map, sym, ℕ, suc, true, Str, lit, text_eq, List, [], ◌∷◌, ◌++◌, none, some, ◌≡◌, refl,
}
use webboot.Exec.{Res, ok, pure}
use webboot.Os.{
  Call, temp_dir, temp_file, open_file, read_open, loop_new, mount_loop, unmount, remove_all, stat,
  close, remove, force_unmount, Machine, Os, call, defer, wrap_error, ignore_error, or_fatal,
}
use webboot.Os.Traces.{EndsWith}
use webboot.Passphrase.{encode_hex, hex_digit}
use webboot.Bootiso.Image.{LinuxImage, OsImage, Config}
use webboot.Bootiso.Parse.{Parsers, parse_config_from_iso, parse_config_file, by_type}
use webboot.Bootiso.Parse.Cleanup.{parse_config_from_iso-unmounts}
use webboot.Bootiso.Custom.{
  load_custom_configs, load_mounted, load_configs, load_config, copy_once, fresh_copy, lookup, step,
}
use webboot.Bootiso.Custom.Cleanup.{HasReturned, opened, calls_in_loop, load_custom_configs-cleans}
use webboot.Bootiso.Custom.Copies.{IsLoaded, load_custom_configs-Describes}
use webboot.Bootiso.Boot.{boot_cached_iso}
use webboot.Bootiso.Boot.Kexec.{Loaded, boot_cached_iso-Loaded}
use webboot.Bootiso.Checksum.{Hashes, hash_of, verify_checksum, Compared, verify_checksum-ok}

abbrev answer : Call → Res Str
answer (temp_dir p) = ok p
answer (temp_file p) = ok p
answer (open_file f) = ok f
answer (read_open f) = ok f
answer (loop_new iso) = ok (lit "/dev/loop0")
answer (mount_loop dev d) = ok d
answer _ = ok []

abbrev pub machine : Machine ℕ
machine c w = (answer c, suc w)

abbrev pub start : Os ℕ
start = record { world = 0; trace = [] }

abbrev linux_image : LinuxImage
linux_image = record {
  name = lit "arch";
  kernel = some (lit "k");
  initrd = none;
  cmdline = lit "quiet";
}

abbrev arch : OsImage
arch = record { label = lit "arch"; linux = some linux_image }

abbrev pub parsers : Parsers ℕ
parsers = record {
  get_block_devices = pure [];
  syslinux = λ d. pure (arch ∷ []);
  grub = λ d devs. pure [];
}

abbrev iso : Str
iso = lit "arch.iso"

parse_config_from_iso-unmounts_example :
    EndsWith
      (unmount (lit "mnt-") ∷ remove_all (lit "mnt-") ∷ [])
      (parse_config_from_iso machine parsers iso (lit "syslinux") start).1.trace
unfolding call parse_config_from_iso parse_config_file by_type wrap_error defer ignore_error text_eq
    lit
parse_config_from_iso-unmounts_example =
    parse_config_from_iso-unmounts machine parsers iso (lit "syslinux") (lit "mnt-")
      (lit "/dev/loop0") (lit "mnt-") start (call machine (temp_dir (lit "mnt-")) start).1
      (call machine (loop_new iso) (call machine (temp_dir (lit "mnt-")) start).1).1
      (call machine (mount_loop (lit "/dev/loop0") (lit "mnt-"))
        (call machine (loop_new iso) (call machine (temp_dir (lit "mnt-")) start).1).1).1
      refl refl refl tt

abbrev pub hashes : Hashes
hashes = record { md5 = λ s. s; sha1 = λ s. []; sha256 = λ s. [] }

verify_checksum_runs :
    (verify_checksum machine hashes (lit "iso") (lit "69736f") (lit "md5") start).0
    ≡ ok (true, lit "69736f")
unfolding verify_checksum defer ignore_error call hash_of text_eq lit encode_hex hex_digit
verify_checksum_runs = refl

verify_checksum-ok_example :
    Compared machine hashes (lit "iso") (lit "69736f") (lit "md5") start true (lit "69736f")
verify_checksum-ok_example =
    verify_checksum-ok machine hashes (lit "iso") (lit "69736f") (lit "md5") start true
      (lit "69736f") verify_checksum_runs

boot_cached_iso-Loaded_example :
    Loaded machine linux_image
      (lit "quiet" ++ (lit " " ++ lit "waitusb=10"))
      (call machine (stat (lit "/sbin/kexec")) start).1
      (boot_cached_iso machine arch (lit "waitusb=10") start)
unfolding call
boot_cached_iso-Loaded_example =
    boot_cached_iso-Loaded machine arch linux_image (lit "waitusb=10") [] start
      (call machine (stat (lit "/sbin/kexec")) start).1 refl refl

-- Two configurations with one kernel.
abbrev configs : List Config
configs =
    record { label = lit "one"; kernel_path = lit "vm"; initrd_path = lit "a"; cmdline = [] }
    ∷ record { label = lit "two"; kernel_path = lit "vm"; initrd_path = lit "b"; cmdline = lit "x" }
    ∷ []

abbrev image_named : Str → Str → OsImage
image_named label cmdline = record {
  label = label;
  linux = some (record {
    name = label;
    kernel = some (lit "kernel-");
    initrd = some (lit "initrd-");
    cmdline = cmdline;
  });
}

load_custom_configs_runs :
    (load_custom_configs machine iso configs start).0
    ≡ ok (image_named (lit "one") [] ∷ image_named (lit "two") (lit "x") ∷ [])
unfolding load_custom_configs load_mounted load_configs load_config copy_once fresh_copy lookup step
    call wrap_error defer ignore_error or_fatal text_eq lit
load_custom_configs_runs = refl

load_custom_configs-Describes_example :
    IsLoaded machine iso configs start
      (image_named (lit "one") [] ∷ image_named (lit "two") (lit "x") ∷ [])
      (load_custom_configs machine iso configs start).1
load_custom_configs-Describes_example =
    load_custom_configs-Describes machine iso configs start
      (image_named (lit "one") [] ∷ image_named (lit "two") (lit "x") ∷ []) load_custom_configs_runs

abbrev made : Os ℕ
made = (call machine (temp_dir (lit "mnt-")) start).1

abbrev looped : Os ℕ
looped = (call machine (loop_new iso) made).1

abbrev mounted : Os ℕ
mounted = (call machine (mount_loop (lit "/dev/loop0") (lit "mnt-")) looped).1

load_custom_configs-cleans_example :
    (load_custom_configs machine iso configs start).1.trace
    ≡ calls_in_loop machine (lit "mnt-") configs mounted
      ++ (map close (opened machine (lit "mnt-") configs mounted)
          ++ force_unmount (lit "mnt-") ∷ remove (lit "mnt-") ∷ [])
unfolding call
load_custom_configs-cleans_example =
    load_custom_configs-cleans machine iso (lit "mnt-") (lit "/dev/loop0") (lit "mnt-") configs
      start made looped mounted refl refl refl (subst HasReturned (sym load_custom_configs_runs) tt)
