-- ===== src/Wifi/Wireless/Events.antt =====
-- The numbers of the events of wireless extensions (pkg/wifi/wireless.go).
use webboot.Prelude.{ℕ, List, [], ◌∷◌}

abbrev pub iwevtxdrop : ℕ
iwevtxdrop = 0x8c00

abbrev pub iwevqual : ℕ
iwevqual = 0x8c01

abbrev pub iwevcustom : ℕ
iwevcustom = 0x8c02

abbrev pub iwevregistered : ℕ
iwevregistered = 0x8c03

abbrev pub iwevexpired : ℕ
iwevexpired = 0x8c04

abbrev pub iwevgenie : ℕ
iwevgenie = 0x8c05

abbrev pub iwevmichaelmicfailure : ℕ
iwevmichaelmicfailure = 0x8c06

abbrev pub iwevassocreqie : ℕ
iwevassocreqie = 0x8c07

abbrev pub iwevassocrespie : ℕ
iwevassocrespie = 0x8c08

abbrev pub iwevpmkidcand : ℕ
iwevpmkidcand = 0x8c09

abbrev pub iwevfirst : ℕ
iwevfirst = 0x8c00

-- The events.
abbrev pub events : List ℕ
events =
    iwevtxdrop ∷ iwevqual ∷ iwevcustom ∷ iwevregistered ∷ iwevexpired ∷ iwevgenie
    ∷ iwevmichaelmicfailure ∷ iwevassocreqie ∷ iwevassocrespie ∷ iwevpmkidcand ∷ []
