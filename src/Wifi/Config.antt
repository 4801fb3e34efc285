-- ===== src/Wifi/Config.antt =====
-- pkg/wifi/iwl.go: the configuration of wpa_supplicant.
use webboot.Prelude.{Str, lit, List, [], ◌∷◌, ◌++◌}
use webboot.Exec.{other, message, Res, ok, err, blocked, panicked, exited}

-- `fmt.Sprintf(nopassphrase, essid)`.
unfoldable pub nopassphrase : Str → Str
nopassphrase essid =
    lit "network={\n\t\tssid=\"" ++ (essid ++ lit "\"\n\t\tproto=RSN\n\t\tkey_mgmt=NONE\n\t}")

-- `fmt.Sprintf(eap, essid, identity, password)`.
unfoldable pub eap : Str → Str → Str → Str
eap essid identity password =
    lit "network={\n\t\tssid=\""
    ++ (essid
        ++ (lit "\"\n\t\tkey_mgmt=WPA-EAP\n\t\tidentity=\""
            ++ (identity ++ (lit "\"\n\t\tpassword=\"" ++ (password ++ lit "\"\n\t}")))))

-- `passphrase.Run` of the NiChrome project, which is not in the repository: a configuration or an
-- error.
module _ (run : Str → Str → Res Str) where
  abbrev pub wrapped : Str → Str → Res Str → Res Str
  wrapped essid pass (ok conf) = ok conf
  wrapped essid pass (err e) =
      err
        (other (lit "essid: " ++ (essid ++ (lit ", pass: " ++ (pass ++ (lit " : " ++ message e))))))
  wrapped essid pass blocked = blocked
  wrapped essid pass panicked = panicked
  wrapped essid pass (exited n) = exited n

  -- The arguments are the network's name, the password and the identity.
  unfoldable pub generate_config : List Str → Res Str
  generate_config (essid ∷ []) = ok (nopassphrase essid)
  generate_config (essid ∷ pass ∷ []) = wrapped essid pass (run essid pass)
  generate_config (essid ∷ pass ∷ id ∷ []) = ok (eap essid id pass)
  generate_config _ = err (other (lit "generateConfig needs 1, 2, or 3 args"))
