-- ===== src/Cmd/Network/Credentials.antt =====
-- What `connectWirelessNetwork` passes on for each security protocol.
use webboot.Prelude.{Str, lit, ap, sym, List, ◌∷◌, ◌≡◌, ◌∙◌, refl}
use webboot.Exec.{Res, ok, Exec}
use webboot.Exec.Inversion.{proceed-ok, proceed-eq, ok-injective, value}
use webboot.Menu.Ui.{Ui}
use webboot.Menu.TextInput.{always_valid, prompt_text_input}
use webboot.Wifi.Option as WifiOption
use webboot.Wifi.Config.{generate_config, nopassphrase, eap, wrapped}
use webboot.Cmd.App.{Env, App, in_ui}
use webboot.Cmd.Network.{enter_credentials, setup_params}

module _ {W : Type 0} (run : Str → Str → Res Str) where
  -- The configuration that the parameters give is the one of the protocol, with what was entered
  -- in the prompts, in their order.
  abbrev pub ConfiguredFor : Str → WifiOption.SecProto → App W → List Str → Type 0
  ConfiguredFor essid WifiOption.no_enc s params =
      generate_config run params ≡ ok (nopassphrase essid)
  ConfiguredFor essid WifiOption.wpa_psk s params =
      (pass : Str) × (u : Ui) × (prompt_text_input (lit "Enter password:") always_valid s.ui
        ≡ (ok pass, u))
      × (generate_config run params ≡ wrapped run essid pass (run essid pass))
  ConfiguredFor essid WifiOption.wpa_eap s params =
      (pass : Str) × (id : Str) × (u : Ui) × (v : Ui) × (prompt_text_input (lit "Enter password:")
          always_valid s.ui
        ≡ (ok pass, u))
      × (prompt_text_input (lit "Enter identity:") always_valid u ≡ (ok id, v))
      × (generate_config run params ≡ ok (eap essid id pass))
  ConfiguredFor essid WifiOption.not_supported_proto s params = ⊥

-- A prompt that was answered.
entered :
    {W A : Type 0} (m : Exec Ui A) (s : App W) {a : A} {t : App W}
    → in_ui m s ≡ (ok a, t)
    → m s.ui ≡ (ok a, t.ui)
entered m s e = λ i. ((e i).0, (e i).1.ui)

module _ {W : Type 0} (env : Env W) (run : Str → Str → Res Str) where
  setup_by_suite :
      (essid : Str) (suite : WifiOption.SecProto) (s : App W) {params : List Str}
      → (setup_params env (record { essid = essid; auth_suite = suite }) s).0 ≡ ok params
      → ConfiguredFor run essid suite s params
  unfolding enter_credentials generate_config
  setup_by_suite essid WifiOption.no_enc s h = rw (sym (ok-injective h)) refl
  setup_by_suite essid WifiOption.wpa_psk s h =
      let (c, t, got, done) = proceed-ok (enter_credentials env WifiOption.wpa_psk s) _ h in
      let (pass, t1, first, kept) =
        proceed-eq (in_ui (prompt_text_input (lit "Enter password:") always_valid) s) _ got in
      let same = ok-injective (ap (λ q. q.0) kept) in
      (
        pass,
        t1.ui,
        entered (prompt_text_input (lit "Enter password:") always_valid) s first,
        ap (generate_config run) (sym (ok-injective done) ∙ ap (◌∷◌ essid) (sym same)),
      )
  setup_by_suite essid WifiOption.wpa_eap s h =
      let (c, t, got, done) = proceed-ok (enter_credentials env WifiOption.wpa_eap s) _ h in
      let (pass, t1, first, more) =
        proceed-eq (in_ui (prompt_text_input (lit "Enter password:") always_valid) s) _ got in
      let (id, t2, second, kept) =
        proceed-eq (in_ui (prompt_text_input (lit "Enter identity:") always_valid) t1) _ more in
      let same = ok-injective (ap (λ q. q.0) kept) in
      (
        pass,
        id,
        t1.ui,
        t2.ui,
        entered (prompt_text_input (lit "Enter password:") always_valid) s first,
        entered (prompt_text_input (lit "Enter identity:") always_valid) t1 second,
        ap (generate_config run) (sym (ok-injective done) ∙ ap (◌∷◌ essid) (sym same)),
      )
  setup_by_suite essid WifiOption.not_supported_proto s h = absurd (value h)

  -- If `connectWirelessNetwork` comes to its parameters for a network, then the worker makes from them the configuration of the protocol: the one without a passphrase; the one for the passphrase entered; or the one for the password entered first and the identity entered behind it. For a protocol that is not supported it does not come to any.
  pub setup_params-ConfiguredFor :
      (n : WifiOption.Network) (params : List Str) (s : App W)
      → (setup_params env n s).0 ≡ ok params
      → ConfiguredFor run n.essid n.auth_suite s params
  setup_params-ConfiguredFor n params s h = setup_by_suite n.essid n.auth_suite s h
