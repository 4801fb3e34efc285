-- ===== src/Cmd/Network/Rounds.antt =====
-- The loop of `selectWirelessNetwork` has rounds enough.
use webboot.Prelude.{ℕ, zero, suc, ◌≤◌, ◌<◌, Str, [], ◌∷◌, map, ◌≡◌, refl, arith}
use webboot.Exec.{
  back_request, exit_request, canceled, other, message, Res, ok, err, blocked, panicked, exited,
  Exec,
}
use webboot.Exec.Inversion.{proceed-Post, Post-map}
use webboot.Menu.Taking.{Took-Kept, prompt_text_input-Took, display_result-Kept, left}
use webboot.Menu.TextInput.{always_valid, prompt_text_input}
use webboot.Menu.Message.{display_result}
use webboot.Wifi.Option as WifiOption
use webboot.Wifi.Worker.{IwlWorker, scan, connect}
use webboot.Cmd.Types.{
  Entry, iso, dir_option, config, interface, download_option, log_option, boot_config, mirror,
  label,
}
use webboot.Cmd.Types as Types
use webboot.Cmd.App.{Env, App, in_ui, in_host, prompt}
use webboot.Cmd.App.Events.{
  events_left, Keeping, proceed-Keeping, in_ui-Keeping, in_host-Keeping, prompt-Took,
  prompt-Keeping, proceed_agree-Less, proceed_agree, enough_fuel, Less, Took-Less, Keeping-Post,
}
use webboot.Cmd.Network.{
  enter_credentials, identity_too, setup_params, connect_wireless_network, network_of,
  choose_network, after_connect, network_rounds,
}

module _ {W : Type 0} (env : Env W) where
  typed-Keeping :
      (k : ℕ) (title : Str) (s : App W)
      → events_left s ≤ k
      → Keeping k (in_ui (prompt_text_input title always_valid) s)
  typed-Keeping k title s h =
      in_ui-Keeping k (prompt_text_input title always_valid) s
        (λ u. Took-Kept left (left u) _ (prompt_text_input-Took title always_valid u)) h

  identity_too-Keeping :
      (k : ℕ) (pass : Str) (suite : WifiOption.SecProto) (s : App W)
      → events_left s ≤ k
      → Keeping k (identity_too env pass suite s)
  identity_too-Keeping k pass WifiOption.wpa_psk s h = h
  identity_too-Keeping k pass _ s h =
      proceed-Keeping k (in_ui (prompt_text_input _ always_valid) s) _ (typed-Keeping k _ s h)
        (λ id t le. le)

  enter_credentials-Keeping :
      (k : ℕ) (suite : WifiOption.SecProto) (s : App W)
      → events_left s ≤ k
      → Keeping k (enter_credentials env suite s)
  unfolding enter_credentials
  enter_credentials-Keeping k suite s h =
      proceed-Keeping k (in_ui (prompt_text_input _ always_valid) s) _ (typed-Keeping k _ s h)
        (λ pass t le. identity_too-Keeping k pass suite t le)

  setup_params-Keeping :
      (k : ℕ) (essid : Str) (suite : WifiOption.SecProto) (s : App W)
      → events_left s ≤ k
      → Keeping k (setup_params env (record { essid = essid; auth_suite = suite }) s)
  setup_params-Keeping k essid WifiOption.no_enc s h = h
  setup_params-Keeping k essid WifiOption.wpa_psk s h =
      proceed-Keeping k (enter_credentials env WifiOption.wpa_psk s) _
        (enter_credentials-Keeping k WifiOption.wpa_psk s h) (λ c t le. le)
  setup_params-Keeping k essid WifiOption.wpa_eap s h =
      proceed-Keeping k (enter_credentials env WifiOption.wpa_eap s) _
        (enter_credentials-Keeping k WifiOption.wpa_eap s h) (λ c t le. le)
  setup_params-Keeping k essid WifiOption.not_supported_proto s h = h

  pub connect-Keeping :
      (k : ℕ) (w : IwlWorker) (n : WifiOption.Network) (s : App W)
      → events_left s ≤ k
      → Keeping k (connect_wireless_network env w n s)
  unfolding connect_wireless_network
  connect-Keeping k w n s h =
      proceed-Keeping k (setup_params env n s) (λ params. in_host (connect env.commands w params))
        (setup_params-Keeping k n.essid n.auth_suite s h)
        (λ params t le. in_host-Keeping k (connect env.commands w params) t le)

  network_of-Keeping :
      (k : ℕ) (e : Entry) (s : App W) → events_left s ≤ k → Keeping k (network_of env e s)
  network_of-Keeping k (Types.network n) s h = h
  network_of-Keeping k (iso n p) s h = h
  network_of-Keeping k (dir_option n p) s h = h
  network_of-Keeping k (config l) s h = h
  network_of-Keeping k (interface l) s h = h
  network_of-Keeping k download_option s h = h
  network_of-Keeping k log_option s h = h
  network_of-Keeping k (boot_config i) s h = h
  network_of-Keeping k (mirror m) s h = h

  network_of-Less :
      (k : ℕ) (e : Entry) (s : App W) → events_left s < k → Less k (network_of env e s)
  network_of-Less zero e s h = absurd (omega arith)
  network_of-Less (suc k) e s h =
      Post-map (λ _ t. events_left t ≤ k) (λ _ t. events_left t < suc k) (network_of env e s)
        (Keeping-Post k (network_of env e s) (network_of-Keeping k e s (omega arith)))
        (λ n t le. omega arith)

  choose_network-Less :
      (k : ℕ) (w : IwlWorker) (s : App W) → events_left s ≤ k → Less k (choose_network env w s)
  unfolding choose_network
  choose_network-Less k w s h =
      proceed-Post (λ _ t. events_left t ≤ k) (in_host (scan env.commands w) s) _ _
        (Keeping-Post k _ (in_host-Keeping k (scan env.commands w) s h))
        (λ networks t le.
          proceed-Post (λ _ u. events_left u < k) (prompt _ (map Types.network networks) t) _
            (network_of env)
            (Post-map (λ _ u. events_left u < events_left t) (λ _ u. events_left u < k)
              (prompt _ (map Types.network networks) t)
              (Took-Less (events_left t) _ (prompt-Took _ (map Types.network networks) t))
              (λ e u lt. omega arith))
            (λ e u lt. network_of-Less k e u lt))

  pub choose_network-Keeping :
      (k : ℕ) (w : IwlWorker) (s : App W) → events_left s ≤ k → Keeping k (choose_network env w s)
  unfolding choose_network
  choose_network-Keeping k w s h =
      proceed-Keeping k (in_host (scan env.commands w) s) _
        (in_host-Keeping k (scan env.commands w) s h)
        (λ networks t le.
          proceed-Keeping k (prompt _ (map Types.network networks) t) (network_of env)
            (prompt-Keeping k _ (map Types.network networks) t le)
            (λ e u lt. network_of-Keeping k e u lt))

  pub shown-Keeping :
      (k : ℕ) (m : Str) (s : App W)
      → events_left s ≤ k
      → Keeping k (in_ui (display_result (m ∷ [])) s)
  shown-Keeping k m s h =
      in_ui-Keeping k (display_result (m ∷ [])) s (display_result-Kept (m ∷ [])) h

  after_agree :
      (k : ℕ) (f g : Exec (App W) (Unit {0})) (p : Res (Unit {0}) × App W)
      → ((s : App W) → events_left s ≤ k → f s ≡ g s)
      → Keeping k p
      → after_connect env f p ≡ after_connect env g p
  after_agree k f g (ok u, s) e h = refl
  after_agree k f g (err exit_request, s) e h = refl
  after_agree k f g (err back_request, s) e h = e s h
  after_agree k f g (err canceled, s) e h =
      proceed_agree k (in_ui (display_result (message canceled ∷ [])) s) (λ _. f) (λ _. g)
        (shown-Keeping k _ s h) (λ _ t le. e t le)
  after_agree k f g (err (other m), s) e h =
      proceed_agree k (in_ui (display_result (m ∷ [])) s) (λ _. f) (λ _. g) (shown-Keeping k m s h)
        (λ _ t le. e t le)
  after_agree k f g (blocked, s) e h = refl
  after_agree k f g (panicked, s) e h = refl
  after_agree k f g (exited n, s) e h = refl

  one_round_more :
      (n : ℕ) (w : IwlWorker) (s : App W)
      → events_left s < n
      → network_rounds env (suc n) w s ≡ network_rounds env n w s
  unfolding network_rounds
  one_round_more zero w s h = absurd (omega arith)
  one_round_more (suc n) w s h =
      proceed_agree-Less (events_left s) (choose_network env w s)
        (λ network s'.
          after_connect env (network_rounds env (suc n) w)
            (connect_wireless_network env w network s'))
        (λ network s'.
          after_connect env (network_rounds env n w) (connect_wireless_network env w network s'))
        (choose_network-Less (events_left s) w s (omega arith))
        (λ network t lt.
          after_agree (events_left t) (network_rounds env (suc n) w) (network_rounds env n w)
            (connect_wireless_network env w network t) (λ u le. one_round_more n w u (omega arith))
            (connect-Keeping (events_left t) w network t (omega arith)))

  -- The loop of `selectWirelessNetwork` has rounds enough: with any number of rounds that is larger than the number of events it does the same.
  pub network_rounds_enough :
      (n : ℕ) (w : IwlWorker) (s : App W)
      → events_left s < n
      → network_rounds env n w s ≡ network_rounds env (suc (events_left s)) w s
  network_rounds_enough n w s h =
      enough_fuel (λ m. network_rounds env m w s) (events_left s) n
        (λ m lt. one_round_more m w s lt) h
