-- ===== src/Cmd/Network/Kept.antt =====
-- The network menu adds no events.
use webboot.Prelude.{ℕ, zero, suc, ◌≤◌, Str, List, [], ◌∷◌, length}
use webboot.Exec.{
  back_request, exit_request, canceled, other, message, Res, ok, err, blocked, panicked, exited,
  Exec,
}
use webboot.Menu.Message.{display_result}
use webboot.Os.{stat, call}
use webboot.Wifi.Worker.{IwlWorker, new_iwl_worker}
use webboot.Cmd.Types.{label}
use webboot.Cmd.App.{Env, App, in_ui, in_host, in_os, in_world}
use webboot.Cmd.App.Events.{
  events_left, Keeping, proceed-Keeping, in_host-Keeping, in_os-Keeping, in_world-Keeping,
  prompt-Keeping,
}
use webboot.Cmd.Network.{
  connect_wireless_network, choose_network, after_connect, network_rounds, select_wireless_network,
  select_network_interface, setup_network, wireless_iface_entries, wireless_among,
  interface_is_wireless, found,
}
use webboot.Cmd.Network.Rounds.{connect-Keeping, choose_network-Keeping, shown-Keeping}

module _ {W : Type 0} (env : Env W) where
  after_connect-Keeping :
      (k : ℕ) (f : Exec (App W) (Unit {0})) (p : Res (Unit {0}) × App W)
      → ((s : App W) → events_left s ≤ k → Keeping k (f s))
      → Keeping k p
      → Keeping k (after_connect env f p)
  after_connect-Keeping k f (ok u, s) c h = h
  after_connect-Keeping k f (err exit_request, s) c h = h
  after_connect-Keeping k f (err back_request, s) c h = c s h
  after_connect-Keeping k f (err canceled, s) c h =
      proceed-Keeping k (in_ui (display_result (message canceled ∷ [])) s) (λ _. f)
        (shown-Keeping env k _ s h) (λ _ t le. c t le)
  after_connect-Keeping k f (err (other m), s) c h =
      proceed-Keeping k (in_ui (display_result (m ∷ [])) s) (λ _. f) (shown-Keeping env k m s h)
        (λ _ t le. c t le)
  after_connect-Keeping k f (blocked, s) c h = tt
  after_connect-Keeping k f (panicked, s) c h = tt
  after_connect-Keeping k f (exited n, s) c h = tt

  network_rounds-Keeping :
      (k n : ℕ) (w : IwlWorker) (s : App W)
      → events_left s ≤ k
      → Keeping k (network_rounds env n w s)
  unfolding network_rounds
  network_rounds-Keeping k zero w s h = tt
  network_rounds-Keeping k (suc n) w s h =
      proceed-Keeping k (choose_network env w s)
        (λ network s'.
          after_connect env (network_rounds env n w) (connect_wireless_network env w network s'))
        (choose_network-Keeping env k w s h)
        (λ network t le.
          after_connect-Keeping k (network_rounds env n w)
            (connect_wireless_network env w network t) (λ u le'. network_rounds-Keeping k n w u le')
            (connect-Keeping env k w network t le))

  select_wireless_network-Keeping :
      (k : ℕ) (name : Str) (s : App W)
      → events_left s ≤ k
      → Keeping k (select_wireless_network env name s)
  unfolding select_wireless_network
  select_wireless_network-Keeping k name s h =
      proceed-Keeping k (in_host (new_iwl_worker env.commands name) s)
        (λ w t. network_rounds env (suc (length t.ui.events)) w t)
        (in_host-Keeping k (new_iwl_worker env.commands name) s h)
        (λ w t le. network_rounds-Keeping k (suc (length t.ui.events)) w t le)

  found-Keeping : {A : Type 0} (k : ℕ) (p : Res A × App W) → Keeping k p → Keeping k (found env p)
  found-Keeping k (ok a, s) h = h
  found-Keeping k (err e, s) h = h
  found-Keeping k (blocked, s) h = tt
  found-Keeping k (panicked, s) h = tt
  found-Keeping k (exited n, s) h = tt

  wireless_among-Keeping :
      (k : ℕ) (names : List Str) (s : App W)
      → events_left s ≤ k
      → Keeping k (wireless_among env names s)
  unfolding wireless_among interface_is_wireless
  wireless_among-Keeping k [] s h = h
  wireless_among-Keeping k (name ∷ names) s h =
      proceed-Keeping k (interface_is_wireless env name s) _
        (found-Keeping k (in_os (call env.machine (stat _)) s)
          (in_os-Keeping k (call env.machine (stat _)) s h))
        (λ b t le.
          proceed-Keeping k (wireless_among env names t) _ (wireless_among-Keeping k names t le)
            (λ es u le'. le'))

  pub setup_network-Keeping :
      (k : ℕ) (s : App W) → events_left s ≤ k → Keeping k (setup_network env s)
  unfolding setup_network select_network_interface wireless_iface_entries
  setup_network-Keeping k s h =
      proceed-Keeping k (select_network_interface env s)
        (λ e. select_wireless_network env (label e))
        (proceed-Keeping k (wireless_iface_entries env s) _
          (proceed-Keeping k (in_world env.link_list s) (wireless_among env)
            (in_world-Keeping k env.link_list s h)
            (λ names t le. wireless_among-Keeping k names t le))
          (λ es t le. prompt-Keeping k _ es t le))
        (λ e t le. select_wireless_network-Keeping k (label e) t le)
