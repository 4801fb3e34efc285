-- ===== src/Cmd/Utils.antt =====
-- cmds/webboot/utils.go: `inferIsoType`, `supportedDistroEntries`, `validURL` and
-- `listenForCancel`. A map is the list of its pairs in the order in which `range` comes to them.
pub mod Sorting
use webboot.Prelude.{
  ℕ, zero, suc, ◌<◌, Bool, true, false, Str, lit, text_eq, List, [], ◌∷◌, ◌++◌, Option, none, some,
  map, ltb, ◌==◌, ◌||◌, ◌&&◌, not, if◌then◌else◌, length, is_empty,
}
use webboot.Menu.Event.{Event}
use webboot.Cmd.Types.{Distro, Entry, config, label}

abbrev pub Distros : Type 0
Distros = List (Str × Distro)

-- `regexp.MatchString` at the pattern of a distribution is a parameter; a bad pattern matches
-- nothing.
unfoldable pub infer_iso_type : (Str → Str → Bool) → Str → Distros → Str
infer_iso_type matches name [] = []
infer_iso_type matches name ((n, d) ∷ ds) =
    if matches d.iso_pattern name then n else infer_iso_type matches name ds

-- `a < b` on strings.
unfoldable pub text_lt : Str → Str → Bool
text_lt a [] = false
text_lt [] (y ∷ b) = true
text_lt (x ∷ a) (y ∷ b) = let rest = text_lt a b in ltb x y || ((x == y) && rest)

-- `sort.Slice` by label; the algorithm is the library's.
unfoldable pub insert : Str → List Str → List Str
insert x [] = x ∷ []
insert x (y ∷ ys) = let rest = insert x ys in if text_lt y x then y ∷ rest else x ∷ y ∷ ys

unfoldable pub sort : List Str → List Str
unfolding insert
sort [] = []
sort (x ∷ xs) = insert x (sort xs)

unfoldable pub supported_distro_entries : Distros → List Entry
unfolding sort
supported_distro_entries ds = map config (sort (map (λ p. p.0) ds))

-- `supportedDistros[name]`.
unfoldable pub find_distro : Str → Distros → Option Distro
find_distro name [] = none
find_distro name ((n, d) ∷ ds) = if text_eq n name then some d else find_distro name ds

-- `^https*://.+\.iso$`: `.` is any byte but a newline, and `$` the end of the text.
abbrev no_newline : Str → Bool
no_newline [] = true
no_newline (c ∷ s) = not (c == 10) && no_newline s

-- `.+\.iso$`: at least one character, the last four being `.iso`.
abbrev ends_iso : Str → Bool
ends_iso [] = false
ends_iso (c ∷ s) = text_eq s (lit ".iso") || ends_iso s

abbrev strip_s : Str → Str
strip_s [] = []
strip_s (c ∷ s) = let rest = strip_s s in if c == b's' then rest else c ∷ s

abbrev without : Str → Str → Option Str
without [] s = some s
without (p ∷ ps) [] = none
without (p ∷ ps) (c ∷ s) = let rest = without ps s in if p == c then rest else none

abbrev after_scheme : Option Str → Bool
after_scheme none = false
after_scheme (some s) = no_newline s && ends_iso s

abbrev after_http : Option Str → Bool
after_http none = false
after_http (some s) = after_scheme (without (lit "://") (strip_s s))

unfoldable pub is_iso_url : Str → Bool
is_iso_url url = after_http (without (lit "http") url)

unfoldable pub valid_url : Str → Str × Str × Bool
unfolding is_iso_url
valid_url url = if is_iso_url url then (url, [], true) else (url, lit "Invalid URL.", false)

-- `listenForCancel`, of which `n` events come before the download is over: whether it cancels, and
-- the events that it leaves.
unfoldable pub listen_for_cancel : ℕ → List Event → Bool × List Event
listen_for_cancel zero es = (false, es)
listen_for_cancel (suc n) [] = (false, [])
listen_for_cancel (suc n) (e ∷ es) =
    let rest = listen_for_cancel n es in if text_eq e.id (lit "<Escape>") then (true, es) else rest
