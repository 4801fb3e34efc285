-- ===== src/Wifi/Option.antt =====
-- pkg/wifi/types.go, and the security protocols of iwl.go.
use webboot.Prelude.{Str}

pub data SecProto : Type 0 where
  no_enc wpa_psk wpa_eap not_supported_proto : SecProto

-- `wifi.Option`.
pub record Network : Type 0 where
  pub essid : Str
  pub auth_suite : SecProto
