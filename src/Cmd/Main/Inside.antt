-- ===== src/Cmd/Main/Inside.antt =====
-- The loop of `main` stays within the cache directory.
use webboot.Prelude.{
  ℕ, zero, suc, Str, text_eq, List, [], ◌++◌, Bool-cases, ◌≡◌, inl, inr, lit, text_ne, ◌⊎◌, length,
  not,
}
use webboot.Exec.{
  Error, back_request, exit_request, canceled, other, Res, ok, err, blocked, panicked, exited, Exec,
}
use webboot.Exec.Inversion.{Post, Post-after, proceed-Post, Post-map, Post-eq, Post-Anything}
use webboot.FilePath.{clean}
use webboot.FilePath.Parents.{IsName}
use webboot.Menu.Ui.{Ui}
use webboot.Menu.Entries.{prompt_menu_entry}
use webboot.Menu.Entries.Members.{All, prompt_menu_entry-Post}
use webboot.Cmd.Types.{
  Entry, iso, dir_option, config, interface, download_option, log_option, network, boot_config,
  mirror, label,
}
use webboot.Cmd.App.{FileInfo, Env, App, prompt, or_text}
use webboot.Cmd.Network.{connected}
use webboot.Cmd.Mirrors.{exec_download}
use webboot.Cmd.Mirrors.Next.{IsAfterDownload, exec_download-IsAfterDownload}
use webboot.Cmd.Boot.{dir_entries, exec_dir, exec_iso}
use webboot.Cmd.Main.Below.{
  Below, Inside, parent-Below, main_entries-Inside, AllNamed, dir_entries-Inside,
}
use webboot.Cmd.Main.{
  Flags, main_entries, main_menu_rounds, get_main_menu, recover, or_recover, leave_dir,
  again_or_fatal, run_download, load_distros, set_up, unknown, round, show_log, handle_error,
}

module _ {W : Type 0} (cache : Str) where
  -- The entry that an action returns leads to nothing outside.
  abbrev pub StaysInside : Res Entry × App W → Type 0
  StaysInside p = Post (λ e s. Inside cache e) p

  moved :
      (p : Res Entry × Ui) (s : App W)
      → Post (λ e u. Inside cache e) p
      → StaysInside (p.0, record s { ui = p.1 })
  moved (ok e, u) s h = h
  moved (err e, u) s h = tt
  moved (blocked, u) s h = tt
  moved (panicked, u) s h = tt
  moved (exited n, u) s h = tt

  prompt-Inside :
      (title : Str) (es : List Entry) (s : App W)
      → All (Inside cache) es
      → StaysInside (prompt title es s)
  unfolding prompt
  prompt-Inside title es s h =
      moved (prompt_menu_entry label title es [] s.ui) s
        (prompt_menu_entry-Post label (Inside cache) title es [] s.ui h)

  again-Inside :
      (retry : Exec (App W) Entry) (p : Res Entry × App W)
      → ((s : App W) → StaysInside (retry s))
      → StaysInside p
      → StaysInside (again_or_fatal retry p)
  again-Inside retry (ok e, s) again h = h
  again-Inside retry (err back_request, s) again h = again s
  again-Inside retry (err exit_request, s) again h = tt
  again-Inside retry (err canceled, s) again h = tt
  again-Inside retry (err (other m), s) again h = tt
  again-Inside retry (blocked, s) again h = tt
  again-Inside retry (panicked, s) again h = tt
  again-Inside retry (exited n, s) again h = tt

  main_menu_rounds-Inside : (n : ℕ) (s : App W) → StaysInside (main_menu_rounds n cache s)
  unfolding main_menu_rounds
  main_menu_rounds-Inside zero s = tt
  main_menu_rounds-Inside (suc n) s =
      again-Inside (main_menu_rounds n cache) (prompt (lit "Webboot") (main_entries cache) s)
        (main_menu_rounds-Inside n)
        (prompt-Inside (lit "Webboot") (main_entries cache) s (main_entries-Inside cache))

  pub get_main_menu-Inside : (s : App W) → StaysInside (get_main_menu cache s)
  unfolding get_main_menu
  get_main_menu-Inside s = main_menu_rounds-Inside (suc (length s.ui.events)) s

-- The entries that the loop of `main` comes to, with the state.
pub data Reached {W : Type 0} (env : Env W) (flags : Flags) (cache : Str)
    : Entry → App W → Type 0 where
  at_menu :
      (s t : App W) (e : Entry) → get_main_menu cache s ≡ (ok e, t) → Reached env flags cache e t
  in_loop :
      {d : Entry} {s : App W} (t : App W) (e : Entry)
      → Reached env flags cache d s
      → round env flags cache d s ≡ (ok e, t)
      → Reached env flags cache e t

module _ {W : Type 0} (env : Env W) (flags : Flags) (cache : Str)
    (is_clean : clean cache ≡ cache) where
  recover-Inside : (e : Error) (s : App W) → StaysInside cache (recover env flags cache e s)
  unfolding recover
  recover-Inside e s =
      Post-after (Inside cache) (handle_error e s) (λ _. get_main_menu cache)
        (λ _ t. get_main_menu-Inside cache t)

  leave_dir-Inside :
      (path : Str) (p : Res Entry × App W)
      → Below cache path
      → StaysInside cache p
      → StaysInside cache (leave_dir env flags cache path p)
  leave_dir-Inside path (ok e, s) b h = h
  leave_dir-Inside path (err back_request, s) b h = elim (Bool-cases (text_eq path cache)) [
    | inl at ↦ rw (at, leave_dir) (recover-Inside back_request s)
    | inr below ↦
        rw (below, leave_dir) (parent-Below cache path is_clean b (text_ne path cache below))
  ]
  leave_dir-Inside path (err exit_request, s) b h = recover-Inside exit_request s
  leave_dir-Inside path (err canceled, s) b h = recover-Inside canceled s
  leave_dir-Inside path (err (other m), s) b h = recover-Inside (other m) s
  leave_dir-Inside path (blocked, s) b h = tt
  leave_dir-Inside path (panicked, s) b h = tt
  leave_dir-Inside path (exited n, s) b h = tt

  or_recover-Inside :
      {A : Type 0} (next : A → Entry) (p : Res A × App W)
      → Post (λ a s. Inside cache (next a)) p
      → StaysInside cache (or_recover env flags cache next p)
  or_recover-Inside next (ok a, s) h = h
  or_recover-Inside next (err e, s) h = recover-Inside e s
  or_recover-Inside next (blocked, s) h = tt
  or_recover-Inside next (panicked, s) h = tt
  or_recover-Inside next (exited n, s) h = tt

  AfterDownload-Inside : (e : Entry) → IsAfterDownload e → Inside cache e
  AfterDownload-Inside (iso name path) h = tt
  AfterDownload-Inside (dir_option name path) h = absurd h
  AfterDownload-Inside (config l) h = tt
  AfterDownload-Inside (interface l) h = tt
  AfterDownload-Inside download_option h = tt
  AfterDownload-Inside log_option h = tt
  AfterDownload-Inside (network n) h = tt
  AfterDownload-Inside (boot_config image) h = tt
  AfterDownload-Inside (mirror m) h = tt

  run_download-Inside : (s : App W) → StaysInside cache (run_download env flags cache s)
  unfolding run_download
  run_download-Inside s = Post-after (Inside cache) (connected env s) _ λ active t.
      Post-after (Inside cache) (set_up env flags cache active t) _ λ _ u.
        Post-after (Inside cache) (load_distros env flags cache u) _ λ _ v.
          or_recover-Inside (λ e. e) (exec_download env cache v)
            (Post-map (λ e x. IsAfterDownload e) (λ e x. Inside cache e) (exec_download env cache v)
              (exec_download-IsAfterDownload env cache v) (λ e x. AfterDownload-Inside e))

  module _ (named : (path : Str) (w : W) → AllNamed (env.read_dir path w).0) where
    listed :
        (x : Str ⊎ List FileInfo) (s : App W)
        → AllNamed x
        → Post (λ infos t. All (λ (f : FileInfo). IsName f.name) infos) (or_text x, s)
    listed (inl e) s h = tt
    listed (inr infos) s h = h

    exec_dir-Inside :
        (path : Str) (s : App W) → Below cache path → StaysInside cache (exec_dir env path s)
    unfolding exec_dir
    exec_dir-Inside path s b =
        proceed-Post (λ infos t. All (λ (f : FileInfo). IsName f.name) infos) _
          (λ e t. Inside cache e) _
          (listed (env.read_dir path s.os.world).0 _ (named path s.os.world))
          (λ infos t h.
            prompt-Inside cache (lit "Distros") (dir_entries env path infos) t
              (dir_entries-Inside env cache path infos b h))

    unknown-Inside : (type : Str) (s : App W) → StaysInside cache (unknown env flags cache type s)
    unknown-Inside type s =
        recover-Inside (other (lit "Unknown menu type " ++ (type ++ lit "!\n"))) s

    round-Inside :
        (e : Entry) (s : App W) → Inside cache e → StaysInside cache (round env flags cache e s)
    unfolding round
    round-Inside (iso name path) s h =
        or_recover-Inside (λ _. iso name path) (exec_iso env path (not flags.dry_run) s)
          (Post-map (λ _ _. Unit {0}) (λ _ _. Unit {0}) _ (Post-Anything _) (λ _ _ _. tt))
    round-Inside (dir_option name path) s h =
        leave_dir-Inside path (exec_dir env path s) h (exec_dir-Inside path s h)
    round-Inside (config l) s h = unknown-Inside (lit "*main.Config") s
    round-Inside (interface l) s h = unknown-Inside (lit "*main.Interface") s
    round-Inside download_option s h = run_download-Inside s
    round-Inside log_option s h =
        Post-after (Inside cache) (show_log s) (λ _. get_main_menu cache)
          (λ _ t. get_main_menu-Inside cache t)
    round-Inside (network n) s h = unknown-Inside (lit "*main.Network") s
    round-Inside (boot_config image) s h = unknown-Inside (lit "*main.BootConfig") s
    round-Inside (mirror m) s h = unknown-Inside (lit "*main.Mirror") s

    Reached-Inside : {e : Entry} {s : App W} → Reached env flags cache e s → Inside cache e
    Reached-Inside (at_menu s t e h) =
        Post-eq (λ e t. Inside cache e) (get_main_menu-Inside cache s) h
    Reached-Inside (in_loop {d} {s} t e r h) =
        Post-eq (λ e t. Inside cache e) (round-Inside d s (Reached-Inside r)) h

    -- Every directory that the loop of `main` comes to is the cache directory, or below it by
    -- names that directories list: the cache directory is clean, and `ioutil.ReadDir` lists names.
    pub Reached-Below :
        {name path : Str} {s : App W}
        → Reached env flags cache (dir_option name path) s
        → Below cache path
    Reached-Below r = Reached-Inside r
