-- ===== src/Cmd/Main/Loop.antt =====
-- The loop of `main`: each round takes an event, so that its rounds are enough.
use webboot.Prelude.{
  ℕ, zero, suc, ◌≤◌, ◌<◌, Bool, true, false, not, ◌&&◌, Str, lit, [], ◌∷◌, ◌++◌, if◌then◌else◌, ◌≡◌,
  arith,
}
use webboot.Exec.{other, Res, ok, err, blocked, panicked, exited, ◌>>=◌}
use webboot.Exec.Inversion.{proceed-Post}
use webboot.FilePath.{base}
use webboot.Os.{ignore_error}
use webboot.Cmd.Types.{
  Entry, iso, dir_option, config, interface, download_option, log_option, network, boot_config,
  mirror, label,
}
use webboot.Cmd.Utils.{Distros, supported_distro_entries}
use webboot.Cmd.App.{Env, App, prompt}
use webboot.Cmd.App.Events.{
  events_left, Keeping, proceed-Keeping, prompt-Took, proceed_agree-Less, enough_fuel, Less,
  Took-Less, Keeping-Post, ignore_error-Keeping,
}
use webboot.Cmd.Download.{distro_data}
use webboot.Cmd.Download.Kept.{distro_data-Keeping}
use webboot.Cmd.Network.{connected, setup_network}
use webboot.Cmd.Network.Kept.{setup_network-Keeping}
use webboot.Cmd.Mirrors.{choose_link, exec_download}
use webboot.Cmd.Mirrors.Kept.{choose_link-Keeping, fetch-Keeping, exec_download-Keeping}
use webboot.Cmd.Boot.{exec_iso, exec_dir}
use webboot.Cmd.Boot.Kept.{exec_iso-Keeping}
use webboot.Cmd.Main.{
  Flags, show_log, tail_of, or_recover, set_up, keep_distros, distros_link, load_distros,
  run_download, unknown, round, rounds,
}
use webboot.Cmd.Main.Rounds.{
  recover-Less, leave_dir-Less, exec_dir-Took, or_recover-Less, exec_iso-Less, get_main_menu-Less,
  Keeping-Less, show_text-Keeping, weaken,
}

module _ {W : Type 0} (env : Env W) where
  exec_download-Less :
      (cache_dir : Str) (s : App W) → Less (events_left s) (exec_download env cache_dir s)
  unfolding exec_download
  exec_download-Less cache_dir s =
      proceed-Post (λ _ t. events_left t < events_left s)
        (prompt _ (supported_distro_entries s.supported_distros ++ config _ ∷ []) s) _ _
        (Took-Less (events_left s) _
          (prompt-Took _ (supported_distro_entries s.supported_distros ++ config _ ∷ []) s))
        (λ entry t lt. Keeping-Less (events_left t) (events_left s) _ lt (
          proceed-Keeping (events_left t) (choose_link env entry t) _
            (choose_link-Keeping env (events_left t) entry t (omega arith))
            (λ link u le.
              fetch-Keeping env (events_left t) cache_dir (label entry) link (base link) u le)))

module _ {W : Type 0} (env : Env W) (flags : Flags) (cache_dir : Str) where
  set_up-Keeping :
      (k : ℕ) (b : Bool) (s : App W)
      → events_left s ≤ k
      → Keeping k ((if b then ignore_error (setup_network env) else λ t. (ok tt, t)) s)
  set_up-Keeping k true s h =
      ignore_error-Keeping k (setup_network env) s (setup_network-Keeping env k s h)
  set_up-Keeping k false s h = h

  keep_distros-Keeping :
      (k : ℕ) (p : Res Distros × App W)
      → Keeping k p
      → Keeping k (keep_distros env flags cache_dir p)
  keep_distros-Keeping k (ok ds, s) h = h
  keep_distros-Keeping k (err e, s) h = h
  keep_distros-Keeping k (blocked, s) h = tt
  keep_distros-Keeping k (panicked, s) h = tt
  keep_distros-Keeping k (exited n, s) h = tt

  run_download-Less :
      (k : ℕ) (s : App W) → events_left s ≤ k → Less k (run_download env flags cache_dir s)
  unfolding run_download connected load_distros
  run_download-Less k s h =
      let t = (connected env s).1 in
      let active = (env.get_google s.os.world).0 in
      proceed-Post (λ _ u. events_left u ≤ k) (set_up env flags cache_dir active t)
        (λ e u. events_left u < k)
        (λ _. load_distros env flags cache_dir >>= λ _ v.
          or_recover env flags cache_dir (λ e. e) (exec_download env cache_dir v))
        (Keeping-Post k (set_up env flags cache_dir active t)
          (set_up-Keeping k (flags.network && not active) t h))
        (λ _ u le2.
          proceed-Post (λ _ v. events_left v ≤ k) (load_distros env flags cache_dir u)
            (λ e u. events_left u < k)
            (λ _ v. or_recover env flags cache_dir (λ e. e) (exec_download env cache_dir v))
            (Keeping-Post k (load_distros env flags cache_dir u) (
              keep_distros-Keeping k (distro_data env cache_dir distros_link u)
                (distro_data-Keeping env k cache_dir distros_link u le2)))
            (λ _ v le3.
              or_recover-Less env flags cache_dir k (λ e. e) (exec_download env cache_dir v)
                (weaken (events_left v) k (exec_download env cache_dir v) le3
                  (exec_download-Less env cache_dir v))
                (exec_download-Keeping env k cache_dir v le3)))

  unknown-Less :
      (type : Str) (s : App W) → Less (events_left s) (unknown env flags cache_dir type s)
  unknown-Less type s =
      recover-Less env flags cache_dir (events_left s)
        (other (lit "Unknown menu type " ++ (type ++ lit "!\n"))) s (omega arith)

  -- Each round of `main` that leads to another entry has taken an event.
  round-Less :
      (entry : Entry) (s : App W) → Less (events_left s) (round env flags cache_dir entry s)
  unfolding round show_log
  round-Less log_option s =
      proceed-Post (λ _ t. events_left t ≤ events_left s) (show_log s) _ _
        (Keeping-Post (events_left s) _
          (show_text-Keeping (events_left s) (tail_of s.log_buffer) s (omega arith)))
        (λ _ t le. get_main_menu-Less (events_left s) cache_dir t le)
  round-Less download_option s = run_download-Less (events_left s) s (omega arith)
  round-Less (iso name path) s =
      or_recover-Less env flags cache_dir (events_left s) (λ _. iso name path)
        (exec_iso env path (not flags.dry_run) s)
        (exec_iso-Less env flags cache_dir (events_left s) path (not flags.dry_run) s)
        (exec_iso-Keeping env (events_left s) path (not flags.dry_run) s (omega arith))
  round-Less (dir_option name path) s =
      leave_dir-Less env flags cache_dir (events_left s) path (exec_dir env path s)
        (exec_dir-Took env flags cache_dir path s)
  round-Less (config l) s = unknown-Less (lit "*main.Config") s
  round-Less (interface l) s = unknown-Less (lit "*main.Interface") s
  round-Less (network n) s = unknown-Less (lit "*main.Network") s
  round-Less (boot_config i) s = unknown-Less (lit "*main.BootConfig") s
  round-Less (mirror m) s = unknown-Less (lit "*main.Mirror") s

  one_entry_more :
      (n : ℕ) (entry : Entry) (s : App W)
      → events_left s < n
      → rounds env flags cache_dir (suc n) entry s ≡ rounds env flags cache_dir n entry s
  unfolding rounds
  one_entry_more zero entry s h = absurd (omega arith)
  one_entry_more (suc n) entry s h =
      proceed_agree-Less (events_left s) (round env flags cache_dir entry s)
        (rounds env flags cache_dir (suc n)) (rounds env flags cache_dir n) (round-Less entry s)
        (λ next t lt. one_entry_more n next t (omega arith))

  -- The loop of `main` has rounds enough if they are more than the events: any larger number of rounds does the same, since each round that leads to another entry has taken an event.
  pub rounds_enough :
      (n : ℕ) (entry : Entry) (s : App W)
      → events_left s < n
      → rounds env flags cache_dir n entry s
        ≡ rounds env flags cache_dir (suc (events_left s)) entry s
  rounds_enough n entry s h =
      enough_fuel (λ m. rounds env flags cache_dir m entry s) (events_left s) n
        (λ m lt. one_entry_more m entry s lt) h
