-- ===== src/Cmd/Network.antt =====
-- cmds/webboot/network.go. The loop over the networks ends with the events: it has as many rounds
-- as there are events, and one more.
pub mod Credentials
pub mod Rounds
pub mod Kept
use webboot.Prelude.{
  ℕ, zero, suc, Bool, true, false, Str, lit, List, [], ◌∷◌, ◌++◌, Option, none, some, map, length,
}
use webboot.Exec.{
  Error, back_request, exit_request, canceled, other, message, Res, ok, err, blocked, panicked,
  exited, Exec, pure, fail, ◌>>=◌, ◌>>◌,
}
use webboot.Menu.TextInput.{always_valid, prompt_text_input}
use webboot.Menu.Message.{display_result}
use webboot.Os.{Call, stat, call}
use webboot.Wifi.Option as WifiOption
use webboot.Wifi.Worker.{IwlWorker, new_iwl_worker, scan, connect}
use webboot.Cmd.Types.{Entry, interface, label}
use webboot.Cmd.Types as Types
use webboot.Cmd.App.{Env, App, in_ui, in_os, in_world, in_host, prompt}

module _ {W : Type 0} (env : Env W) where
  unfoldable pub connected : Exec (App W) Bool
  connected = in_world (λ w. (ok (env.get_google w).0, (env.get_google w).1))

  abbrev found : {A S : Type 0} → Res A × S → Res Bool × S
  found (ok a, s) = (ok true, s)
  found (err e, s) = (ok false, s)
  found (blocked, s) = (blocked, s)
  found (panicked, s) = (panicked, s)
  found (exited n, s) = (exited n, s)

  unfoldable pub interface_is_wireless : Str → Exec (App W) Bool
  unfolding call
  interface_is_wireless name s =
      found (in_os (call env.machine (stat (lit "/sys/class/net/" ++ (name ++ lit "/wireless")))) s)

  abbrev with_entry : Bool → Str → List Entry → List Entry
  with_entry true name es = interface name ∷ es
  with_entry false name es = es

  unfoldable pub wireless_among : List Str → Exec (App W) (List Entry)
  wireless_among [] = pure []
  wireless_among (name ∷ names) =
      interface_is_wireless name >>= λ b. wireless_among names >>= λ es. pure (with_entry b name es)

  unfoldable pub wireless_iface_entries : Exec (App W) (List Entry)
  unfolding wireless_among interface_is_wireless
  wireless_iface_entries = in_world env.link_list >>= λ names. wireless_among names

  unfoldable pub select_network_interface : Exec (App W) Entry
  unfolding wireless_iface_entries prompt
  select_network_interface = wireless_iface_entries >>= λ es. prompt (lit "Network Interfaces") es

  abbrev identity_too : Str → WifiOption.SecProto → Exec (App W) (List Str)
  identity_too pass WifiOption.wpa_psk = pure (pass ∷ [])
  identity_too pass _ =
      in_ui (prompt_text_input (lit "Enter identity:") always_valid) >>= λ id. pure (pass ∷ id ∷ [])

  unfoldable pub enter_credentials : WifiOption.SecProto → Exec (App W) (List Str)
  unfolding prompt_text_input always_valid
  enter_credentials suite =
      in_ui (prompt_text_input (lit "Enter password:") always_valid) >>= λ pass.
      identity_too pass suite

  abbrev pub setup_params : WifiOption.Network → Exec (App W) (List Str)
  setup_params n = elim n.auth_suite [
    | WifiOption.no_enc ↦ pure (n.essid ∷ [])
    | WifiOption.wpa_psk ↦ enter_credentials WifiOption.wpa_psk >>= λ c. pure (n.essid ∷ c)
    | WifiOption.wpa_eap ↦ enter_credentials WifiOption.wpa_eap >>= λ c. pure (n.essid ∷ c)
    | WifiOption.not_supported_proto ↦ fail (other (lit "Security protocol is not supported."))
  ]

  unfoldable pub connect_wireless_network : IwlWorker → WifiOption.Network → Exec (App W) (Unit {0})
  unfolding enter_credentials connect
  connect_wireless_network w n =
      setup_params n >>= λ params. in_host (connect env.commands w params)

  -- `entry.(*Network)`.
  abbrev network_of : Entry → Exec (App W) WifiOption.Network
  network_of (Types.network n) = pure n
  network_of _ = fail (other (lit "Bad menu entry."))

  unfoldable pub choose_network : IwlWorker → Exec (App W) WifiOption.Network
  unfolding scan prompt
  choose_network w = do
    networks ← in_host (scan env.commands w)
    entry ← prompt (lit "Wireless Networks") (map Types.network networks)
    network_of entry

  -- What follows a try to connect: `continue` is the rest of the loop.
  abbrev pub after_connect :
      Exec (App W) (Unit {0}) → Res (Unit {0}) × App W → Res (Unit {0}) × App W
  after_connect continue (ok u, s) = (ok u, s)
  after_connect continue (err exit_request, s) = (err exit_request, s)
  after_connect continue (err back_request, s) = continue s
  after_connect continue (err canceled, s) =
      (in_ui (display_result (message canceled ∷ [])) >>= λ _. continue) s
  after_connect continue (err (other m), s) = (in_ui (display_result (m ∷ [])) >>= λ _. continue) s
  after_connect continue (blocked, s) = (blocked, s)
  after_connect continue (panicked, s) = (panicked, s)
  after_connect continue (exited n, s) = (exited n, s)

  unfoldable pub network_rounds : ℕ → IwlWorker → Exec (App W) (Unit {0})
  unfolding choose_network connect_wireless_network display_result
  network_rounds zero w s = (blocked, s)
  network_rounds (suc n) w s =
      (choose_network w >>= λ network s'.
      after_connect (network_rounds n w) (connect_wireless_network w network s'))
        s

  unfoldable pub select_wireless_network : Str → Exec (App W) (Unit {0})
  unfolding new_iwl_worker network_rounds
  select_wireless_network name = do
    w ← in_host (new_iwl_worker env.commands name)
    λ s. network_rounds (suc (length s.ui.events)) w s

  unfoldable pub setup_network : Exec (App W) (Unit {0})
  unfolding select_network_interface select_wireless_network label
  setup_network = select_network_interface >>= λ e. select_wireless_network (label e)
