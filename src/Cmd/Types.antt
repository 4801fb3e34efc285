-- ===== src/Cmd/Types.antt =====
-- cmds/webboot/types.go, and the log option of webboot.go. The values behind the interface
-- `menu.Entry` are the constructors of one data type.
use webboot.Prelude.{Str, lit, List, [], ◌++◌}
use webboot.Bootiso.Image.{OsImage, Config}
use webboot.Wifi.Option as WifiOption

pub record Mirror : Type 0 where
  pub name : Str
  pub url : Str

pub record Distro : Type 0 where
  pub iso_pattern : Str
  pub checksum : Str
  pub checksum_type : Str
  pub boot_config : Str
  pub kernel_params : Str
  pub custom_configs : List Config
  pub mirrors : List Mirror

-- What a missing key of a map of distributions gives.
abbrev pub zero_distro : Distro
zero_distro = record {
  iso_pattern = [];
  checksum = [];
  checksum_type = [];
  boot_config = [];
  kernel_params = [];
  custom_configs = [];
  mirrors = [];
}

pub record CacheDevice : Type 0 where
  pub name : Str
  pub uuid : Str
  pub mount_point : Str
  pub iso_path : Str

-- `block.BlockDev`, as far as it is used.
pub record BlockDev : Type 0 where
  pub name : Str
  pub fs_uuid : Str

unfoldable pub new_cache_device : BlockDev → Str → CacheDevice
new_cache_device d mount_point = record {
  name = d.name;
  uuid = d.fs_uuid;
  mount_point = mount_point;
  iso_path = [];
}

pub data Entry : Type 0 where
  iso dir_option : (name path : Str) → Entry
  config interface : Str → Entry
  download_option log_option : Entry
  network : WifiOption.Network → Entry
  boot_config : OsImage → Entry
  mirror : Mirror → Entry

abbrev network_label : Str → WifiOption.SecProto → Str
network_label essid WifiOption.no_enc = essid ++ lit ": No Passphrase\n"
network_label essid WifiOption.wpa_psk = essid ++ lit ": WPA-PSK (only passphrase)\n"
network_label essid WifiOption.wpa_eap = essid ++ lit ": WPA-EAP (passphrase and identity)\n"
network_label essid WifiOption.not_supported_proto = essid ++ lit ": Not a supported protocol\n"

-- `entry.Label()`.
unfoldable pub label : Entry → Str
label (iso name path) = name
label (dir_option name path) = name
label (config l) = l
label (interface l) = l
label download_option = lit "Download an ISO"
label log_option = lit "Show last log"
label (network n) = network_label n.essid n.auth_suite
label (boot_config image) = image.label
label (mirror m) = m.name
