-- ===== src/Cmd/Download.antt =====
-- cmds/webboot: `download` of utils.go and `distroData` of webboot.go. What is shown of the
-- progress, and how many bytes were received, are left out.
pub mod Files
pub mod Kept
pub mod Disk
pub mod Stored
pub mod Errors
pub mod Failure
use webboot.Prelude.{
  ℕ, Bool, true, false, Str, lit, is_empty, List, [], ◌∷◌, ◌++◌, if◌then◌else◌, ◌==◌,
}
use webboot.Exec.{
  Error, back_request, exit_request, canceled, other, message, Res, ok, err, blocked, panicked,
  exited, Exec, pure, fail, ◌>>=◌, ◌>>◌,
}
use webboot.FilePath.{join}
use webboot.Os.{
  Call, http_get, temp_file, remove, remove_all, copy, seek_start, create_file, close, mkdir_all,
  read_file, Machine, Os, call, defer, ignore_error, wrap_error,
}
use webboot.Bootiso.Parse.{with_text}
use webboot.Cmd.Utils.{Distros, listen_for_cancel}
use webboot.Cmd.App.{Env, App, in_os, in_ui}

-- `fmt.Errorf(text+"%v\n", err)`.
abbrev with_line : Str → Error → Error
with_line text e = other (text ++ (message e ++ lit "\n"))

module _ {W : Type 0} (env : Env W) where
  -- A call of the operating system.
  unfoldable pub sys : Call → Exec (App W) Str
  unfolding call
  sys c = in_os (call env.machine c)

  -- `go listenForCancel(…)`, which takes the events that come until the download is over: whether
  -- it cancels.
  unfoldable pub watch : Exec (App W) Bool
  unfolding listen_for_cancel
  watch s =
      let (stopped, es) = listen_for_cancel (env.arrivals s.os.world) s.ui.events in
      (ok stopped, record s { ui = record s.ui { events = es } })

  -- `io.Copy` from the response; a cancelled request ends it.
  abbrev pub copy_response : Str → Str → Bool → Exec (App W) Str
  copy_response temp resp true = fail canceled
  copy_response temp resp false = sys (copy temp resp)

  -- The last copy, and what is done when it fails.
  abbrev pub or_removed : Str → Res Str × App W → Res (Unit {0}) × App W
  or_removed path (ok a, s) = (ok tt, s)
  or_removed path (err e, s) = (ignore_error (sys (remove_all path)) >>= λ _. fail e) s
  or_removed path (blocked, s) = (blocked, s)
  or_removed path (panicked, s) = (panicked, s)
  or_removed path (exited n, s) = (exited n, s)

  -- `io.Copy(cacheFile, tempFile)`.
  unfoldable pub write_cache : Str → Str → Exec (App W) (Unit {0})
  unfolding sys ignore_error
  write_cache temp path s = or_removed path (sys (copy path temp) s)

  -- What stands behind `defer os.Remove(tempFile.Name())`.
  unfoldable pub fill_cache : Str → Str → Str → Exec (App W) (Unit {0})
  unfolding sys watch defer ignore_error write_cache
  fill_cache resp path temp = watch >>= λ stopped. copy_response temp resp stopped >>= λ _.
      sys (seek_start temp) >>= λ _. sys (create_file path) >>= λ _.
      defer (ignore_error (sys (close path))) (write_cache temp path)

  -- What stands behind `defer resp.Body.Close()`.
  unfoldable pub save_response : Str → Str → Exec (App W) (Unit {0})
  unfolding sys defer ignore_error fill_cache
  save_response resp path = do
    temp ← sys (temp_file (lit "iso-download-"))
    defer (ignore_error (sys (remove temp))) (fill_cache resp path temp)

  abbrev if_found : Str → Str → ℕ × Str → Exec (App W) (Unit {0})
  if_found resp path (code, text) =
      if code == 200
      then defer (ignore_error (sys (close resp))) (save_response resp path)
      else fail (other (lit "Received http status code " ++ text))

  -- `download`. A request that cannot be made is a request that fails.
  unfoldable pub download : Str → Str → Exec (App W) (Unit {0})
  unfolding sys defer ignore_error save_response
  download url path = do resp ← sys (http_get url); if_found resp path (env.status resp)

  -- The directory `Downloaded` of the cache, or `os.TempDir()`.
  unfoldable pub download_path : Str → Str → Str → Exec (App W) Str
  unfolding wrap_error sys
  download_path text cache_dir name =
      if is_empty cache_dir
      then pure (join env.os_temp_dir name)
      else wrap_error (with_text text) (sys (mkdir_all (join cache_dir (lit "Downloaded"))))
        >>= λ _. pure (join (join cache_dir (lit "Downloaded")) name)

  -- The text that stands for a cancelled download.
  abbrev pub instead_of_canceled : Str → Error → Error
  instead_of_canceled text back_request = back_request
  instead_of_canceled text exit_request = exit_request
  instead_of_canceled text canceled = other text
  instead_of_canceled text (other m) = other m

  abbrev unmarshalled : Str → Exec (App W) Distros
  unmarshalled content s = (env.unmarshal content, s)

  unfoldable pub distro_data : Str → Str → Exec (App W) Distros
  unfolding wrap_error sys download download_path
  distro_data cache_dir link = do
    path ← download_path (lit "Fail to create the downloaded dir: ") cache_dir (lit "distros.json")
    wrap_error (instead_of_canceled (lit "JSON file download was canceled.")) (download link path)
    content ← wrap_error (with_line (lit "Could not read JSON file: ")) (sys (read_file path))
    wrap_error (with_line (lit "Could not unmarshal JSON file: ")) (unmarshalled content)
