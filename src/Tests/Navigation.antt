-- ===== src/Tests/Navigation.antt =====
-- cmds/webboot: the way into a directory of the cache and back.
use webboot.Prelude.{
  inr, ℕ, true, false, lit, itoa, atoi, text_eq, List, [], ◌∷◌, some, ◌≡◌, ◌≢◌, refl, get_elem?,
  sym, ◌∙◌, split, join, slice?,
}
use webboot.Exec.{ok, err, back_request}
use webboot.FilePath as FilePath
use webboot.FilePath.Parents.{IsName}
use webboot.Menu.Entries.Members.{All}
use webboot.Menu.Event.{presses, listen}
use webboot.Menu.Key.{key_of}
use webboot.Menu.Options.{parsing_menu_option, special_warning}
use webboot.Menu.Ui.{announce, read_log}
use webboot.Menu.Entries.{prompt_menu_entry, choose, numbered}
use webboot.Cmd.Types.{dir_option, label}
use webboot.Cmd.App.{Env, App, FileInfo, prompt}
use webboot.Cmd.Boot.{dir_entries, exec_dir}
use webboot.Cmd.Main.{main_entries, main_menu_rounds, get_main_menu, round}
use webboot.Cmd.Main.Below.{Below}
use webboot.Cmd.Main.Inside.{at_menu, in_loop, Reached-Below}
use webboot.Cmd.Main.Back.{round_back}
use webboot.Tests.Cmd.{env as plain_env, with_events, flags}

abbrev files : List FileInfo
files =
    record { name = lit "arch"; is_dir = true } ∷ record { name = lit "a.iso"; is_dir = false } ∷ []

abbrev env : Env ℕ
env = record plain_env { read_dir = λ path w. (inr files, w) }

abbrev first_twice : App ℕ
first_twice = with_events (presses (lit "0" ∷ lit "<Enter>" ∷ lit "0" ∷ lit "<Enter>" ∷ []))

abbrev in_cache : App ℕ
in_cache = record (with_events (presses (lit "0" ∷ lit "<Enter>" ∷ []))) {
  ui = record (with_events (presses (lit "0" ∷ lit "<Enter>" ∷ []))).ui {
    menus = lit "Webboot" ∷ [];
  };
}

main_menu_runs :
    get_main_menu (lit "/i") first_twice
    ≡ (ok (dir_option (lit "Use Cached ISO") (lit "/i")), in_cache)
unfolding get_main_menu main_menu_rounds main_entries prompt prompt_menu_entry choose numbered
    announce read_log parsing_menu_option listen key_of text_eq lit itoa atoi slice? special_warning
    label join
main_menu_runs = refl

abbrev in_arch : App ℕ
in_arch = record (with_events []) {
  ui = record (with_events []).ui { menus = lit "Webboot" ∷ lit "Distros" ∷ [] };
}

cache_runs :
    round env flags (lit "/i") (dir_option (lit "Use Cached ISO") (lit "/i")) in_cache
    ≡ (ok (dir_option (lit "arch") (FilePath.join (lit "/i") (lit "arch"))), in_arch)
unfolding round exec_dir dir_entries prompt prompt_menu_entry choose numbered announce read_log
    parsing_menu_option listen key_of text_eq lit itoa atoi slice? special_warning label join
cache_runs = refl

arch_dir : FilePath.join (lit "/i") (lit "arch") ≡ lit "/i/arch"
unfolding FilePath.join lit split text_eq join
arch_dir = refl

abbrev leaving : App ℕ
leaving = record (with_events (presses (lit "<Escape>" ∷ []))) {
  ui = record (with_events (presses (lit "<Escape>" ∷ []))).ui { menus = lit "Webboot" ∷ [] };
}

back_runs :
    exec_dir env (FilePath.join (lit "/i") (lit "arch")) leaving ≡ (err back_request, in_arch)
unfolding exec_dir dir_entries prompt prompt_menu_entry choose numbered announce read_log
    parsing_menu_option listen key_of text_eq lit itoa atoi slice? special_warning label join
back_runs = refl

files_named : All (λ (f : FileInfo). IsName f.name) files
unfolding text_eq lit
files_named = (
  (refl, refl, refl, (refl, (refl, (refl, (refl, tt))))),
  ((refl, refl, refl, (refl, (refl, (refl, (refl, (refl, tt)))))), tt),
)

cache_clean : FilePath.clean (lit "/i") ≡ lit "/i"
unfolding FilePath.clean lit split text_eq join
cache_clean = refl

arch_listed :
    get_elem? (dir_entries env (lit "/i") files) 0
    ≡ some (dir_option (lit "arch") (FilePath.join (lit "/i") (lit "arch")))
unfolding dir_entries text_eq lit
arch_listed = refl

arch_apart : FilePath.join (lit "/i") (lit "arch") ≢ lit "/i"
unfolding lit
arch_apart e = cc (sym arch_dir ∙ e)

Reached-Below_example : Below (lit "/i") (FilePath.join (lit "/i") (lit "arch"))
Reached-Below_example =
    Reached-Below env flags (lit "/i") cache_clean (λ path w. files_named)
      (in_loop _ _ (at_menu first_twice _ _ main_menu_runs) cache_runs)

round_back_example :
    round env flags
      (lit "/i")
      (dir_option (lit "arch") (FilePath.join (lit "/i") (lit "arch")))
      leaving
    ≡ (ok (dir_option [] (lit "/i")), in_arch)
round_back_example =
    round_back env flags (lit "/i") (lit "/i") files 0 (lit "arch") _ leaving in_arch cache_clean
      files_named arch_listed arch_apart back_runs
