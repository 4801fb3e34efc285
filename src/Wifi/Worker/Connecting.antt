-- ===== src/Wifi/Worker/Connecting.antt =====
-- What `IWLWorker.Connect` does, step by step.
use webboot.Prelude.{Str, lit, List, ◌++◌, ◌≡◌, refl, Option, none, some}
use webboot.Exec.{Error, Res, ok, err, panicked, proceed, Exec}
use webboot.Wifi.Config.{generate_config}
use webboot.Wifi.Worker.{
  Commands, Host, IwlWorker, run_command, supplicant, dhclient, log_error, opened, connect,
}

module _ {W : Type 0} (machine : Commands W) where
  -- How `Connect` ends by what opening the log file gives: its error, or a panic, with the time in
  -- the log.
  abbrev pub EndsUnwritten : Host W → Option Error × W → Res (Unit {0}) × Host W → Type 0
  EndsUnwritten h (none, w) p =
      p ≡ (panicked, record h { world = machine.write_log (machine.now w ++ lit " ") w })
  EndsUnwritten h (some e, w) p = p ≡ (err e, record h { world = w })

  failed_write :
      (h : Host W) (o : Option Error × W) (k : Exec (Host W) (Unit {0}))
      → EndsUnwritten h o (proceed (opened machine o h) (λ _. k))
  unfolding log_error
  failed_write h (none, v) k = refl
  failed_write h (some e, v) k = refl

  -- If the configuration is made but cannot be written, then `Connect` neither starts the supplicant nor runs dhclient: behind the write it only opens the log file, and if that fails it returns that error, which hides the one of the write; if the log can be opened, it writes the time to it and panics, since it asks a nil error for its text.
  pub connect_write_failure :
      (w : IwlWorker) (args : List Str) (h : Host W) (conf : Str) (e : Error)
      → generate_config machine.passphrase args ≡ ok conf
      → (machine.write_file (lit "/tmp/wifi.conf") conf h.world).0 ≡ some e
      → EndsUnwritten h
          (machine.open_log (machine.write_file (lit "/tmp/wifi.conf") conf h.world).1)
          (connect machine w args h)
  unfolding connect
  connect_write_failure w args h conf e made unwritten =
      rw (made, connect)
        (rw (unwritten, connect)
          (failed_write
            (record h { world = (machine.write_file (lit "/tmp/wifi.conf") conf h.world).1 })
            (machine.open_log (machine.write_file (lit "/tmp/wifi.conf") conf h.world).1) _))

  -- The machine after the configuration is written and the supplicant is started.
  abbrev pub launched : IwlWorker → Str → W → W
  launched w conf world =
      machine.start (supplicant w) (machine.write_file (lit "/tmp/wifi.conf") conf world).1

  -- `Connect` succeeds exactly as the run of dhclient does, once the configuration is made and
  -- written: the supplicant is started between the two, and its own result has no influence.
  connect_written :
      (w : IwlWorker) (args : List Str) (h : Host W) (conf : Str)
      → generate_config machine.passphrase args ≡ ok conf
      → (machine.write_file (lit "/tmp/wifi.conf") conf h.world).0 ≡ none
      → connect machine w args h
        ≡ proceed
            (run_command machine (dhclient w) (record h { world = launched w conf h.world }))
            (λ _ s. (ok tt, s))
  unfolding connect
  connect_written w args h conf made written = rw (made, connect) (rw (written, connect))

  -- No file is written and no command is run if the configuration cannot be made.
  pub connect_bad_config :
      (w : IwlWorker) (args : List Str) (h : Host W) (e : Error)
      → generate_config machine.passphrase args ≡ err e
      → connect machine w args h ≡ (err e, h)
  unfolding connect
  connect_bad_config w args h e bad = rw (bad, connect)
