-- ===== src/Tests/Builder.antt =====
-- webboot.go at fixed inputs: the tools are in /bin, and `pwd` fails.
use webboot.Prelude.{
  ℕ, suc, false, true, Str, lit, text_eq, List, [], ◌∷◌, ◌++◌, ◌≡◌, refl, if◌then◌else◌,
}
use webboot.Exec.{Res, ok, err, exited, other}
use webboot.Os.{Call, run_in, getwd, look_path, stat, Machine, Os, call, must, succeeds}
use webboot.Builder.{Flags, fields, commands, wifi_args, collect_args, run_command, run_all, main}
use webboot.Builder.Wanted.{builds, lookups}
use webboot.Builder.Building.{RunsUntilFailure, main-RunsUntilFailure}

abbrev in_bin : Str → Str
in_bin n = lit "/bin/" ++ n

abbrev ran : List Str → Res Str
ran [] = ok []
ran (a ∷ args) = if text_eq a (lit "pwd") then err (other []) else ok []

abbrev answer : Call → Res Str
answer getwd = ok (lit "/src")
answer (look_path n) = ok (in_bin n)
answer (stat f) = err (other [])
answer (run_in d args) = ran args
answer _ = ok []

abbrev machine : Machine ℕ
machine c w = (answer c, suc w)

abbrev start : Os ℕ
start = record { world = 0; trace = [] }

abbrev flags : Flags
flags = record {
  uroot = lit " -a  b";
  cmds = lit "all";
  ncmds = lit "n";
  bz_image = [];
  iso = lit "x.iso";
  wifi = false;
}

fields_run : fields (lit " -a  b\t") ≡ lit "-a" ∷ lit "b" ∷ []
unfolding fields lit
fields_run = refl

main_run : main machine flags start ≡ (
  exited 1,
  record {
    world = 5;
    trace =
        getwd
        ∷ stat (lit "/sbin/kexec")
        ∷ run_in [] (lit "date" ∷ [])
        ∷ run_in [] (lit "ls" ∷ [])
        ∷ run_in [] (lit "pwd" ∷ [])
        ∷ [];
  },
)
unfolding main call must succeeds collect_args wifi_args commands run_all run_command text_eq lit
main_run = refl

-- The same flags with wifi.
abbrev with_wifi : Flags
with_wifi = record flags { wifi = true }

main-RunsUntilFailure_example :
    (t : Os ℕ) × (t.trace ≡ start.trace ++ lookups with_wifi)
    × RunsUntilFailure machine
        (builds with_wifi false in_bin (lit "/src"))
        t
        (main machine with_wifi start)
main-RunsUntilFailure_example =
    main-RunsUntilFailure machine in_bin (λ n w. refl) false (λ w. (other [], refl)) with_wifi start
      (λ w. refl)
