-- ===== src/Menu/Ui.antt =====
-- What the prompts share: the channel of events, the channel of menu titles, and the log file.
use webboot.Prelude.{Str, List, [], ◌∷◌, ◌++◌, Option, none, some, ◌≡◌, ap}
use webboot.Exec.{Exec, Res, ok, exited}
use webboot.Menu.Event.{Event}

-- The events still to come, the titles sent to `menus` so far, and the lines of `logOutput.txt`,
-- `none` if it can be neither opened nor read.
pub record Ui : Type 0 where
  pub events : List Event
  pub menus : List Str
  pub log_file : Option (List Str)

-- `menus <- title`.
unfoldable pub announce : Str → Exec Ui (Unit {0})
announce title u = (ok tt, record u { menus = u.menus ++ title ∷ [] })

abbrev pub logged : Ui → Option (List Str) → Res (List Str) × Ui
logged u none = (exited 1, u)
logged u (some lines) = (ok lines, u)

-- The rows of the log box; `log.Fatal` ends the process with status 1.
unfoldable pub read_log : Exec Ui (List Str)
read_log u = logged u u.log_file

pub read_log-some :
    (u : Ui) {lines : List Str} → u.log_file ≡ some lines → read_log u ≡ (ok lines, u)
unfolding read_log
read_log-some u h = ap (logged u) h
