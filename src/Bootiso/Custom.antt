-- ===== src/Bootiso/Custom.antt =====
-- pkg/bootiso: `LoadCustomConfigs`.
pub mod Copying
pub mod Copies
pub mod Cleanup
use webboot.Prelude.{
  Bool, true, false, Str, lit, text_eq, List, [], ◌∷◌, ◌++◌, Option, none, some, if◌then◌else◌,
}
use webboot.Exec.{
  Error, other, message, Res, ok, err, blocked, panicked, exited, Exec, pure, proceed, ◌>>=◌, ◌>>◌,
}
use webboot.FilePath.{join}
use webboot.Os.{
  Call, temp_dir, temp_file, remove, open_file, copy, seek_start, close, loop_new, mount_loop,
  force_unmount, Machine, Os, call, defer, wrap_error, ignore_error, or_fatal,
}
use webboot.Bootiso.Image.{LinuxImage, OsImage, Config}
use webboot.Bootiso.Parse.{with_text}

-- The variables of the function that the deferred call and the loop share: the files to close, and
-- the map `copied` from a path in the ISO to the file that holds its copy.
pub record Loader (W : Type 0) : Type 0 where
  pub os : Os W
  pub files : List Str
  pub copied : List (Str × Str)

unfoldable pub lookup : Str → List (Str × Str) → Option Str
lookup k [] = none
lookup k ((j, v) ∷ m) = if text_eq j k then some v else lookup k m

-- The two files of a configuration: the name of a temporary file for one, and of its variable.
pub data Part : Type 0 where
  kernel_part initrd_part : Part

abbrev pub prefix_of : Part → Str
prefix_of kernel_part = lit "kernel-"
prefix_of initrd_part = lit "initrd-"

abbrev pub variable_of : Part → Str
variable_of kernel_part = lit "tmpKernel"
variable_of initrd_part = lit "tmpInitrd"

module _ {W : Type 0} (machine : Machine W) where
  abbrev pub lifted : {A : Type 0} → Loader W → Res A × Os W → Res A × Loader W
  lifted s (r, os) = (r, record s { os = os })

  -- A call of the operating system, with the text of its error.
  unfoldable pub step : Str → Call → Exec (Loader W) Str
  unfolding wrap_error call
  step text c s = lifted s (wrap_error (with_text text) (call machine c) s.os)

  -- `files = append(files, f)`.
  add_file : Str → Exec (Loader W) (Unit {0})
  add_file f s = (ok tt, record s { files = s.files ++ f ∷ [] })

  -- `copied[path] = tmp`.
  add_copy : Str → Str → Exec (Loader W) Str
  add_copy path tmp s = (ok tmp, record s { copied = (path, tmp) ∷ s.copied })

  -- The copy of a file that is not copied yet.
  unfoldable pub fresh_copy : Str → Part → Str → Exec (Loader W) Str
  unfolding step add_file add_copy
  fresh_copy dir part path = do
    source ← step (lit "Error on os.Open; in , and got ") (open_file (join dir path))
    add_file source
    tmp ← step (lit "Error on ioutil.TempFile; in , and got ") (temp_file (prefix_of part))
    step (lit "Error on io.Copy; in , and got ") (copy tmp source) >>= λ _.
        step (lit "Error on " ++ (variable_of part ++ lit ".Seek; in , and got ")) (seek_start tmp)
        >>= λ _. add_copy path tmp

  abbrev pub reuse : Str → Part → Str → Option Str → Exec (Loader W) Str
  reuse dir part path none = fresh_copy dir part path
  reuse dir part path (some f) = pure f

  -- `if _, ok := copied[path]; !ok { … } else { … }`.
  unfoldable pub copy_once : Str → Part → Str → Exec (Loader W) Str
  copy_once dir part path s = reuse dir part path (lookup path s.copied) s

  abbrev pub image_of : Config → Str → Str → OsImage
  image_of c kernel initrd = record {
    label = c.label;
    linux = some (record {
      name = c.label;
      kernel = some kernel;
      initrd = some initrd;
      cmdline = c.cmdline;
    });
  }

  -- One round of the loop: the image of a configuration.
  unfoldable pub load_config : Str → Config → Exec (Loader W) OsImage
  load_config dir c = do
    kernel ← copy_once dir kernel_part c.kernel_path
    initrd ← copy_once dir initrd_part c.initrd_path
    pure (image_of c kernel initrd)

  unfoldable pub load_configs : Str → List Config → Exec (Loader W) (List OsImage)
  load_configs dir [] = pure []
  load_configs dir (c ∷ cs) =
      load_config dir c >>= λ image. load_configs dir cs >>= λ images. pure (image ∷ images)

  -- The deferred function: the files are closed, then the ISO is unmounted and the directory
  -- removed, where a failure ends the process.
  unfoldable pub close_files : List Str → Exec (Os W) (Unit {0})
  unfolding ignore_error call
  close_files [] = pure tt
  close_files (f ∷ fs) = ignore_error (call machine (close f)) >>= λ _. close_files fs

  unfoldable pub clean_up : Str → Str → Exec (Loader W) (Unit {0})
  unfolding or_fatal call close_files
  clean_up dir mp s = lifted s (
      (do
        close_files s.files
        or_fatal (call machine (force_unmount mp))
        or_fatal (call machine (remove dir)))
        s.os)

  abbrev pub fresh : Os W → Loader W
  fresh os = record { os = os; files = []; copied = [] }

  abbrev unlifted : Res (List OsImage) × Loader W → Res (List OsImage) × Os W
  unlifted (r, s) = (r, s.os)

  unfoldable pub load_mounted : Str → Str → List Config → Exec (Os W) (List OsImage)
  unfolding clean_up defer
  load_mounted dir mp configs os =
      unlifted (defer (clean_up dir mp) (load_configs dir configs) (fresh os))

  unfoldable pub load_custom_configs : Str → List Config → Exec (Os W) (List OsImage)
  unfolding wrap_error call
  load_custom_configs iso configs = do
    dir ←
        wrap_error (with_text (lit "Error on ioutil.TempDir; in , and got "))
          (call machine (temp_dir (lit "mnt-")))
    dev ←
        wrap_error (with_text (lit "Error on loop.New; in , and got "))
          (call machine (loop_new iso))
    mp ←
        wrap_error (with_text (lit "Error on loopdev.Mount; in , and got "))
          (call machine (mount_loop dev dir))
    load_mounted dir mp configs
