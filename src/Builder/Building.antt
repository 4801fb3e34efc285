-- ===== src/Builder/Building.antt =====
-- The calls that the image builder makes.
use mathlib.Core.Path.{subst}
use webboot.Prelude.{
  Bool, true, false, Str, lit, List, [], ◌∷◌, ◌++◌, append-nil, append_assoc, map, ◌≡◌, ◌≢◌, refl,
  sym, ap, ◌∙◌,
}
use webboot.Exec.{Res, ok, err, blocked, panicked, exited, Exec, proceed, pure, ◌>>=◌}
use webboot.Exec.Inversion.{HasValue, value}
use webboot.Os.{Call, run_in, getwd, look_path, stat, Machine, Os, call, must, value_or_exit}
use webboot.Os.Answers.{
  Tells, Gives, Gives-pure, Gives-bind, Gives-map, Answers, Gives-must, Gives-succeeds,
}
use webboot.Builder.Wanted.{
  embedded, wifi_tools, wifi_files, optional_file, kexec_file, u_root_args, builds, wifi_lookups,
  lookups,
}
use webboot.Builder.{
  Command, Flags, kexec_args, option_args, webboot_args, commands, extra_bin_must, embed, embed_all,
  wifi_args, collect_args, run_args, run_command, run_all, main,
}

abbrev pub as_call : Command → Call
as_call c = run_in c.dir c.args

abbrev HasArgs : List Str → Type 0
HasArgs [] = ⊥
HasArgs (a ∷ args) = Unit

abbrev pub AllHaveArgs : List Command → Type 0
AllHaveArgs [] = Unit
AllHaveArgs (c ∷ cs) = HasArgs c.args × AllHaveArgs cs

option_args-optional_file : (file name : Str) → option_args file name ≡ optional_file file name
option_args-optional_file [] name = refl
option_args-optional_file (c ∷ file) name = refl

kexec_args-kexec_file : (kexec : Bool) → kexec_args kexec ≡ kexec_file kexec
kexec_args-kexec_file true = refl
kexec_args-kexec_file false = refl

module _ {W : Type 0} (machine : Machine W) where
  abbrev pub world_after : List Command → W → W
  world_after [] w = w
  world_after (c ∷ cs) w = world_after cs (machine (as_call c) w).1

  abbrev pub AllSucceed : List Command → W → Type 0
  AllSucceed [] w = Unit
  AllSucceed (c ∷ cs) w =
      HasValue (machine (as_call c) w).0 × AllSucceed cs (machine (as_call c) w).1

  -- After the commands that succeeded: the end, or one that fails.
  abbrev pub EndsAt : Os W → List Command → List Command → Res (Unit {0}) × Os W → Type 0
  EndsAt t passed [] (r, s) = (r ≡ ok tt) × (s.trace ≡ t.trace ++ map as_call passed)
  EndsAt t passed (c ∷ rest) (r, s) =
      (¬ HasValue (machine (as_call c) (world_after passed t.world)).0)
      × (r ≢ ok tt)
      × (s.trace ≡ t.trace ++ map as_call (passed ++ c ∷ []))

  abbrev pub RunsUntilFailure : List Command → Os W → Res (Unit {0}) × Os W → Type 0
  RunsUntilFailure cs t p =
      (passed : List Command) × (rest : List Command) × (cs ≡ passed ++ rest)
      × AllSucceed passed t.world
      × EndsAt t passed rest p

  -- The state behind a call.
  abbrev then_state : Command → Os W → W → Os W
  then_state c t w = record { world = w; trace = t.trace ++ as_call c ∷ [] }

  EndsAt-cons :
      (c : Command) (t : Os W) (w : W) (passed rest : List Command) (p : Res (Unit {0}) × Os W)
      → (machine (as_call c) t.world).1 ≡ w
      → EndsAt (then_state c t w) passed rest p
      → EndsAt t (c ∷ passed) rest p
  EndsAt-cons c t w passed [] p q (e, tr) = (e, tr ∙ append_assoc t.trace _ _)
  EndsAt-cons c t w passed (d ∷ rest) p q (f, e, tr) = (rw q f, e, tr ∙ append_assoc t.trace _ _)

  stepped :
      (c : Command) (cs : List Command) (t : Os W) (k : Exec (Os W) (Unit {0})) (r : Res Str)
      (w : W)
      → machine (as_call c) t.world ≡ (r, w)
      → RunsUntilFailure cs (then_state c t w) (k (then_state c t w))
      → RunsUntilFailure
          (c ∷ cs)
          t
          (proceed (proceed (value_or_exit (r, then_state c t w)) (λ _. pure tt)) (λ _. k))
  stepped c cs t k (ok a) w e (passed, rest, q, all, ends) = (
    c ∷ passed,
    rest,
    ap (◌∷◌ c) q,
    (rw e tt, rw e all),
    EndsAt-cons c t w passed rest _ (ap (λ p. p.1) e) ends,
  )
  stepped c cs t k (err x) w e h = ([], c ∷ cs, refl, tt, (rw e (λ v. v), λ v. value v, refl))
  stepped c cs t k blocked w e h = ([], c ∷ cs, refl, tt, (rw e (λ v. v), λ v. value v, refl))
  stepped c cs t k panicked w e h = ([], c ∷ cs, refl, tt, (rw e (λ v. v), λ v. value v, refl))
  stepped c cs t k (exited n) w e h = ([], c ∷ cs, refl, tt, (rw e (λ v. v), λ v. value v, refl))

  run_args-RunsUntilFailure :
      (d : Str) (args : List Str) (cs : List Command) (t : Os W) (k : Exec (Os W) (Unit {0}))
      → HasArgs args
      → ((u : Os W) → RunsUntilFailure cs u (k u))
      → RunsUntilFailure
          (record { args = args; dir = d } ∷ cs)
          t
          (proceed (run_args machine d args t) (λ _. k))
  unfolding must call
  run_args-RunsUntilFailure d [] cs t k h rec = absurd h
  run_args-RunsUntilFailure d (a ∷ args) cs t k h rec =
      let p = machine (run_in d (a ∷ args)) t.world in
      stepped (record { args = a ∷ args; dir = d }) cs t k p.0 p.1 refl (rec _)

  pub run_all-RunsUntilFailure :
      (cs : List Command) (t : Os W) → AllHaveArgs cs → RunsUntilFailure cs t (run_all machine cs t)
  unfolding run_all run_command
  run_all-RunsUntilFailure [] t h = ([], [], refl, tt, (refl, sym (append-nil t.trace)))
  run_all-RunsUntilFailure (c ∷ cs) t h =
      run_args-RunsUntilFailure c.dir c.args cs t (run_all machine cs) h.0
        (λ u. run_all-RunsUntilFailure cs u h.1)

  module _ (path : Str → Str)
      (found : (n : Str) → Answers machine (look_path n) (ok (path n))) where
    embed-Gives : (n : Str) → Gives (embed machine n) (embedded path (n ∷ [])) (look_path n ∷ [])
    unfolding embed extra_bin_must
    embed-Gives n = Gives-map _ (λ p. lit "-files" ∷ p ∷ []) (Gives-must machine (found n))

    embed_all-Gives :
        (ns : List Str) → Gives (embed_all machine ns) (embedded path ns) (map look_path ns)
    unfolding embed_all
    embed_all-Gives [] = Gives-pure []
    embed_all-Gives (n ∷ ns) =
        Gives-bind _ _ (look_path n ∷ []) _ (embed-Gives n)
          (Gives-map _ (λ b. embedded path (n ∷ []) ++ b) (embed_all-Gives ns))

    wifi_args-Gives :
        (cwd : Str) (wifi : Bool)
        → Gives (wifi_args machine cwd wifi) (wifi_files path cwd wifi) (wifi_lookups wifi)
    unfolding wifi_args
    wifi_args-Gives cwd false = Gives-pure []
    wifi_args-Gives cwd true =
        Gives-bind _ _ (map look_path wifi_tools) _ (embed_all-Gives wifi_tools) (
          Gives-map _ (λ b. embedded path wifi_tools ++ (webboot_args cwd ++ b))
            (embed-Gives (lit "strace")))

    module _ (kexec : Bool)
        (looked : (w : W) → Tells kexec (machine (stat (lit "/sbin/kexec")) w).0) where
      collect_args-Gives :
          (flags : Flags) (cwd : Str)
          → Gives
              (collect_args machine flags cwd)
              (u_root_args flags kexec path cwd)
              (stat (lit "/sbin/kexec") ∷ wifi_lookups flags.wifi)
      unfolding collect_args
      collect_args-Gives flags cwd =
          rw⁻¹
            (
              kexec_args-kexec_file kexec,
              option_args-optional_file flags.bz_image (lit ":bzImage"),
              option_args-optional_file flags.iso (lit ":iso"),
            )
            (Gives-bind _ _ (stat (lit "/sbin/kexec") ∷ []) _
              (Gives-succeeds machine kexec _ looked)
              (Gives-map _ _ (wifi_args-Gives cwd flags.wifi)))

      -- If the working directory and all the tools are found, the builder looks for them once each, and then runs in order `date`, `ls`, `pwd`, `go build` in the directory of the command, and u-root, with the kexec command if there is one, with the tools by the paths found and the webboot command if wifi is wanted, with the optional files, the words of the flag `-u` and the two lists of commands. It succeeds if all of them do; after the first that fails it runs no other, and does not succeed.
      pub main-RunsUntilFailure :
          (flags : Flags) {cwd : Str} (s : Os W)
          → Answers machine getwd (ok cwd)
          → (t : Os W) × (t.trace ≡ s.trace ++ lookups flags)
            × RunsUntilFailure (builds flags kexec path cwd) t (main machine flags s)
      unfolding main commands
      main-RunsUntilFailure flags {cwd} s in_dir =
          let cs = builds flags kexec path cwd in
          let (u, e, tr) = Gives-must machine in_dir s in
          let (t, e', tr') = collect_args-Gives flags cwd u in
          let behind : List Call = stat (lit "/sbin/kexec") ∷ wifi_lookups flags.wifi in
          let run = λ (args : List Str). run_all machine (commands flags cwd args) in
          let e_main : main machine flags s ≡ run_all machine cs t =
            ap
              (λ p. proceed p (λ d.
                collect_args machine flags d >>= λ args. run_all machine (commands flags d args)))
              e
            ∙ ap (λ p. proceed p run) e' in
          (
            t,
            tr' ∙ ap (λ l. l ++ behind) tr ∙ append_assoc s.trace (getwd ∷ []) behind,
            subst (RunsUntilFailure cs t) (sym e_main)
                (run_all-RunsUntilFailure cs t (tt, (tt, (tt, (tt, (tt, tt)))))),
          )
