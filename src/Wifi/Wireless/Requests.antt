-- ===== src/Wifi/Wireless/Requests.antt =====
-- The numbers of the ioctls of wireless extensions (pkg/wifi/wireless.go).
use webboot.Prelude.{ℕ, List, [], ◌∷◌}

abbrev pub siocsiwcommit : ℕ
siocsiwcommit = 0x8b00

abbrev pub siocgiwname : ℕ
siocgiwname = 0x8b01

abbrev pub siocsiwnwid : ℕ
siocsiwnwid = 0x8b02

abbrev pub siocgiwnwid : ℕ
siocgiwnwid = 0x8b03

abbrev pub siocsiwfreq : ℕ
siocsiwfreq = 0x8b04

abbrev pub siocgiwfreq : ℕ
siocgiwfreq = 0x8b05

abbrev pub siocsiwmode : ℕ
siocsiwmode = 0x8b06

abbrev pub siocgiwmode : ℕ
siocgiwmode = 0x8b07

abbrev pub siocsiwsens : ℕ
siocsiwsens = 0x8b08

abbrev pub siocgiwsens : ℕ
siocgiwsens = 0x8b09

abbrev pub siocsiwrange : ℕ
siocsiwrange = 0x8b0a

abbrev pub siocgiwrange : ℕ
siocgiwrange = 0x8b0b

abbrev pub siocsiwpriv : ℕ
siocsiwpriv = 0x8b0c

abbrev pub siocgiwpriv : ℕ
siocgiwpriv = 0x8b0d

abbrev pub siocsiwstats : ℕ
siocsiwstats = 0x8b0e

abbrev pub siocgiwstats : ℕ
siocgiwstats = 0x8b0f

abbrev pub siocsiwspy : ℕ
siocsiwspy = 0x8b10

abbrev pub siocgiwspy : ℕ
siocgiwspy = 0x8b11

abbrev pub siocsiwthrspy : ℕ
siocsiwthrspy = 0x8b12

abbrev pub siocgiwthrspy : ℕ
siocgiwthrspy = 0x8b13

abbrev pub siocsiwap : ℕ
siocsiwap = 0x8b14

abbrev pub siocgiwap : ℕ
siocgiwap = 0x8b15

abbrev pub siocgiwaplist : ℕ
siocgiwaplist = 0x8b17

abbrev pub siocsiwscan : ℕ
siocsiwscan = 0x8b18

abbrev pub siocgiwscan : ℕ
siocgiwscan = 0x8b19

abbrev pub siocsiwessid : ℕ
siocsiwessid = 0x8b1a

abbrev pub siocgiwessid : ℕ
siocgiwessid = 0x8b1b

abbrev pub siocsiwnickn : ℕ
siocsiwnickn = 0x8b1c

abbrev pub siocgiwnickn : ℕ
siocgiwnickn = 0x8b1d

abbrev pub siocsiwrate : ℕ
siocsiwrate = 0x8b20

abbrev pub siocgiwrate : ℕ
siocgiwrate = 0x8b21

abbrev pub siocsiwrts : ℕ
siocsiwrts = 0x8b22

abbrev pub siocgiwrts : ℕ
siocgiwrts = 0x8b23

abbrev pub siocsiwfrag : ℕ
siocsiwfrag = 0x8b24

abbrev pub siocgiwfrag : ℕ
siocgiwfrag = 0x8b25

abbrev pub siocsiwtxpow : ℕ
siocsiwtxpow = 0x8b26

abbrev pub siocgiwtxpow : ℕ
siocgiwtxpow = 0x8b27

abbrev pub siocsiwretry : ℕ
siocsiwretry = 0x8b28

abbrev pub siocgiwretry : ℕ
siocgiwretry = 0x8b29

abbrev pub siocsiwencode : ℕ
siocsiwencode = 0x8b2a

abbrev pub siocgiwencode : ℕ
siocgiwencode = 0x8b2b

abbrev pub siocsiwpower : ℕ
siocsiwpower = 0x8b2c

abbrev pub siocgiwpower : ℕ
siocgiwpower = 0x8b2d

abbrev pub siocsiwgenie : ℕ
siocsiwgenie = 0x8b30

abbrev pub siocgiwgenie : ℕ
siocgiwgenie = 0x8b31

abbrev pub siocsiwmlme : ℕ
siocsiwmlme = 0x8b16

abbrev pub siocsiwauth : ℕ
siocsiwauth = 0x8b32

abbrev pub siocgiwauth : ℕ
siocgiwauth = 0x8b33

abbrev pub siocsiwencodeext : ℕ
siocsiwencodeext = 0x8b34

abbrev pub siocgiwencodeext : ℕ
siocgiwencodeext = 0x8b35

abbrev pub siocsiwpmksa : ℕ
siocsiwpmksa = 0x8b36

-- The requests that set.
abbrev pub set_requests : List ℕ
set_requests =
    siocsiwcommit ∷ siocsiwnwid ∷ siocsiwfreq ∷ siocsiwmode ∷ siocsiwsens ∷ siocsiwrange
    ∷ siocsiwpriv ∷ siocsiwstats ∷ siocsiwspy ∷ siocsiwthrspy ∷ siocsiwap ∷ siocsiwscan
    ∷ siocsiwessid ∷ siocsiwnickn ∷ siocsiwrate ∷ siocsiwrts ∷ siocsiwfrag ∷ siocsiwtxpow
    ∷ siocsiwretry ∷ siocsiwencode ∷ siocsiwpower ∷ siocsiwgenie ∷ siocsiwmlme ∷ siocsiwauth
    ∷ siocsiwencodeext ∷ siocsiwpmksa ∷ []

-- The requests that get.
abbrev pub get_requests : List ℕ
get_requests =
    siocgiwname ∷ siocgiwnwid ∷ siocgiwfreq ∷ siocgiwmode ∷ siocgiwsens ∷ siocgiwrange ∷ siocgiwpriv
    ∷ siocgiwstats ∷ siocgiwspy ∷ siocgiwthrspy ∷ siocgiwap ∷ siocgiwaplist ∷ siocgiwscan
    ∷ siocgiwessid ∷ siocgiwnickn ∷ siocgiwrate ∷ siocgiwrts ∷ siocgiwfrag ∷ siocgiwtxpow
    ∷ siocgiwretry ∷ siocgiwencode ∷ siocgiwpower ∷ siocgiwgenie ∷ siocgiwauth ∷ siocgiwencodeext
    ∷ []
