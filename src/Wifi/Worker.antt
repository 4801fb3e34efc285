-- ===== src/Wifi/Worker.antt =====
-- pkg/wifi: `IWLWorker`, with the commands that it runs as a parameter, `StubWorker`, and
-- `NativeWorker`, of which only `Connect` does anything. What the supplicant logs is left out.
pub mod Connecting
use webboot.Prelude.{ℕ, Bool, Str, lit, List, [], ◌∷◌, ◌++◌, Option, none, some, ◌||◌, ◌==◌}
use webboot.Exec.{Error, other, message, Res, ok, err, panicked, Exec, pure, fail, ◌>>=◌, ◌>>◌}
use webboot.Wifi.Option.{Network}
use webboot.Wifi.Config.{generate_config}
use webboot.Wifi.Iwlist.{parse_iwlist_out, trim}

-- What a command writes, and the error of `cmd.Run`.
pub record CommandResult : Type 0 where
  pub stdout : Str
  pub stderr : Str
  pub error : Option Error

-- The machine: commands, files, the log file, and a process that is left running.
pub record Commands (W : Type 0) : Type 0 where
  pub run : List Str → W → CommandResult × W
  pub write_file : Str → Str → W → Option Error × W
  pub open_log : W → Option Error × W
  -- `time.Now().String()`.
  pub now : W → Str
  pub write_log : Str → W → W
  pub start : List Str → W → W
  pub passphrase : Str → Str → Res Str

-- The machine, with the buffers `wifiStdout` and `wifiStderr`.
pub record Host (W : Type 0) : Type 0 where
  pub world : W
  pub stdout : Str
  pub stderr : Str

pub record IwlWorker : Type 0 where
  pub interface : Str

abbrev raise : {S A : Type 0} → A → Option Error → Exec S A
raise a none = pure a
raise a (some e) = fail e

abbrev pub supplicant : IwlWorker → List Str
supplicant w =
    lit "/usr/bin/strace"
    ∷ lit "-f"
    ∷ lit "-o"
    ∷ lit "/tmp/out"
    ∷ lit "-s"
    ∷ lit "1024"
    ∷ lit "-v"
    ∷ lit "wpa_supplicant"
    ∷ (lit "-i" ++ w.interface)
    ∷ lit "-c/tmp/wifi.conf"
    ∷ lit "-dd"
    ∷ []

abbrev pub dhclient : IwlWorker → List Str
dhclient w = lit "dhclient" ∷ lit "-ipv4=true" ∷ lit "-ipv6=false" ∷ lit "-v" ∷ w.interface ∷ []

module _ {W : Type 0} (machine : Commands W) where
  -- `cmd.Run()`, with both writers set: the text that it wrote.
  unfoldable pub run_command : List Str → Exec (Host W) Str
  run_command args h =
      let (r, w) = machine.run args h.world in
      raise r.stdout r.error
        (record { world = w; stdout = h.stdout ++ r.stdout; stderr = h.stderr ++ r.stderr })

  unfoldable pub new_iwl_worker : Str → Exec (Host W) IwlWorker
  unfolding run_command
  new_iwl_worker i = do
    run_command (lit "ip" ∷ lit "link" ∷ lit "set" ∷ lit "dev" ∷ i ∷ lit "up" ∷ []) >>= λ _.
        pure (record { interface = i })

  abbrev parsed : Option (List Network) → Exec (Host W) (List Network)
  parsed none h = (panicked, h)
  parsed (some r) h = (ok r, h)

  unfoldable pub scan : IwlWorker → Exec (Host W) (List Network)
  unfolding run_command
  scan w = do
    out ← run_command (lit "iwlist" ∷ w.interface ∷ lit "scanning" ∷ [])
    parsed (parse_iwlist_out out)

  unfoldable pub get_id : IwlWorker → Exec (Host W) Str
  unfolding run_command
  get_id w = do
    out ← run_command (lit "iwgetid" ∷ lit "-r" ∷ [])
    pure (trim (λ c. c == b' ' || c == b'\n') out)

  config : List Str → Exec (Host W) Str
  config args h = (generate_config machine.passphrase args, h)

  -- `file.WriteString(text)` on the log file.
  log_text : Str → Exec (Host W) (Unit {0})
  log_text text h = (ok tt, record h { world = machine.write_log text h.world })

  -- `err.Error()`, where the error may be nil.
  abbrev text_of_error : Option Error → Exec (Host W) Str
  text_of_error none h = (panicked, h)
  text_of_error (some e) h = (ok (message e), h)

  -- What is logged of an error, and the error that is returned.
  unfoldable pub log_error : Option Error → Exec (Host W) (Unit {0})
  unfolding log_text
  log_error e h =
      (log_text (machine.now h.world ++ lit " ") >>= λ _. text_of_error e >>= λ text.
      log_text (lit "/temp/wifi.conf: " ++ text) >>= λ _. log_text (lit "\n") >>= λ _.
      text_of_error e >>= λ text'. fail (other (lit "/tmp/wifi.conf: " ++ text')))
        h

  -- What follows the open of the log file, whose error hides the one of the write.
  abbrev pub opened : Option Error × W → Exec (Host W) (Unit {0})
  opened (none, w) h = log_error none (record h { world = w })
  opened (some e, w) h = (err e, record h { world = w })

  abbrev log_failure : Option Error → Exec (Host W) (Unit {0})
  log_failure none h = (ok tt, h)
  log_failure (some e) h = opened (machine.open_log h.world) h

  store_config : Str → Exec (Host W) (Unit {0})
  unfolding log_error
  store_config conf h =
      let (o, w) = machine.write_file (lit "/tmp/wifi.conf") conf h.world in
      log_failure o (record h { world = w })

  -- The goroutine that runs the supplicant; nothing reads its channel.
  launch : IwlWorker → Exec (Host W) (Unit {0})
  launch w h = (ok tt, record h { world = machine.start (supplicant w) h.world })

  unfoldable pub connect : IwlWorker → List Str → Exec (Host W) (Unit {0})
  unfolding config store_config launch run_command
  connect w args = do
    conf ← config args
    store_config conf
    launch w
    run_command (dhclient w) >>= λ _. pure tt

-- `StubWorker`.
pub record StubWorker : Type 0 where
  pub options : List Network
  pub id : Str

unfoldable pub new_stub_worker : {S : Type 0} → Str → List Network → Exec S StubWorker
new_stub_worker id options = pure (record { options = options; id = id })

unfoldable pub stub_scan : {S : Type 0} → StubWorker → Exec S (List Network)
stub_scan w = pure w.options

unfoldable pub stub_get_id : {S : Type 0} → StubWorker → Exec S Str
stub_get_id w = pure w.id

unfoldable pub stub_connect : {S : Type 0} → StubWorker → List Str → Exec S (Unit {0})
stub_connect w args = pure tt

-- `NativeWorker`; its `Range` is filled by the kernel and never read.
pub record NativeWorker : Type 0 where
  pub interface : Str
  pub fd : ℕ

-- `syscall.Socket` and the ioctl SIOCGIWRANGE are parameters.
unfoldable pub new_native_worker : {S : Type 0} → Exec S ℕ → Str → Exec S NativeWorker
new_native_worker socket i = do s ← socket; pure (record { interface = i; fd = s })

unfoldable pub native_scan : {S : Type 0} → NativeWorker → Exec S (List Network)
native_scan w = fail (other (lit "Not Yet"))

unfoldable pub native_get_id : {S : Type 0} → NativeWorker → Exec S Str
native_get_id w = fail (other (lit "Not Yet"))

unfoldable pub native_connect :
    {S : Type 0} → (ℕ → Exec S (Unit {0})) → NativeWorker → List Str → Exec S (Unit {0})
native_connect ioctl w args = ioctl w.fd
