-- ===== src/Bootiso/Custom/Copies.antt =====
-- Which files the images of `LoadCustomConfigs` name.
use mathlib.Core.Path.{subst}
use webboot.Prelude.{
  Str, lit, text_eq, text_eq_iff, text_eq_refl, List, [], ◌∷◌, ◌++◌, map, none, some, ◌≡◌, refl,
  sym, ap, ◌∙◌, Bool-cases, inl, inr, Option-cases,
}
use webboot.Exec.{Error, Res, ok, err, blocked, panicked, exited, Exec}
use webboot.Exec.Inversion.{Post, proceed-Post, Post-map, proceed-ok, ok-injective, value}
use webboot.Os.Traces.{defer-ok}
use webboot.Os.{
  temp_dir, loop_new, mount_loop, close, force_unmount, remove, Machine, Os, call, wrap_error,
  relabelled,
}
use webboot.Bootiso.Image.{OsImage, Config}
use webboot.Bootiso.Custom.{
  Loader, Part, kernel_part, initrd_part, lookup, reuse, copy_once, load_config, load_configs,
  fresh, clean_up, load_mounted, load_custom_configs,
}
use webboot.Bootiso.Custom.Copying.{Copying, no_copy, fresh_copy-Copying}
use webboot.Bootiso.Custom.Cleanup.{HasReturned, load_custom_configs-cleans}

-- What was copied stays copied.
abbrev Extends : List (Str × Str) → List (Str × Str) → Type 0
Extends m m' = (k v : Str) → lookup k m ≡ some v → lookup k m' ≡ some v

abbrev pub described : Config → Str → Str → OsImage
described c kernel initrd = record {
  label = c.label;
  linux =
      some (record {
        name = c.label;
        kernel = some kernel;
        initrd = some initrd;
        cmdline = c.cmdline;
      });
}

-- The images stand for the configurations in order, each with its label and command line, and
-- with the files that `copied` gives for its two paths.
abbrev pub Describes : List (Str × Str) → List Config → List OsImage → Type 0
Describes copied [] [] = Unit
Describes copied [] (i ∷ is) = ⊥
Describes copied (c ∷ cs) [] = ⊥
Describes copied (c ∷ cs) (i ∷ is) =
    (kernel : Str) × (initrd : Str) × (lookup c.kernel_path copied ≡ some kernel)
    × (lookup c.initrd_path copied ≡ some initrd)
    × (i ≡ described c kernel initrd)
    × Describes copied cs is

Extends-add :
    (path tmp : Str) (m : List (Str × Str)) → lookup path m ≡ none → Extends m ((path, tmp) ∷ m)
unfolding lookup
Extends-add path tmp m new k v h = elim (Bool-cases (text_eq path k)) [
  | inl y ↦ let e = (text_eq_iff path k).0 y in cc
  | inr n ↦ rw (n, lookup) h
]

lookup_new : (path tmp : Str) (m : List (Str × Str)) → lookup path ((path, tmp) ∷ m) ≡ some tmp
unfolding lookup
lookup_new path tmp m = rw text_eq_refl

module _ {S A : Type 0} where
  Post-at : (Q : A → S → Type 0) (p : Res A × S) {a : A} → Post Q p → p.0 ≡ ok a → Q a p.1
  Post-at Q (ok b, s) h e = subst (λ a. Q a s) (ok-injective e) h
  Post-at Q (err x, s) h e = absurd (value e)
  Post-at Q (blocked, s) h e = absurd (value e)
  Post-at Q (panicked, s) h e = absurd (value e)
  Post-at Q (exited n, s) h e = absurd (value e)

  relabelled-ok :
      (f : Error → Error) (p : Res A × S) {a : A} {t : S}
      → relabelled f p ≡ (ok a, t)
      → p ≡ (ok a, t)
  relabelled-ok f (ok b, s) e = e
  relabelled-ok f (err x, s) e = absurd (value (ap (λ q. q.0) e))
  relabelled-ok f (blocked, s) e = absurd (value (ap (λ q. q.0) e))
  relabelled-ok f (panicked, s) e = absurd (value (ap (λ q. q.0) e))
  relabelled-ok f (exited n, s) e = absurd (value (ap (λ q. q.0) e))

  unwrapped :
      (f : Error → Error) (m : Exec S A) (s : S) {a : A} {t : S}
      → wrap_error f m s ≡ (ok a, t)
      → m s ≡ (ok a, t)
  unfolding wrap_error
  unwrapped f m s e = relabelled-ok f (m s) e

module _ {W : Type 0} (machine : Machine W) where
  Describes-Extends :
      (m m' : List (Str × Str)) (cs : List Config) (is : List OsImage)
      → Extends m m'
      → Describes m cs is
      → Describes m' cs is
  Describes-Extends m m' [] [] x d = tt
  Describes-Extends m m' [] (i ∷ is) x d = d
  Describes-Extends m m' (c ∷ cs) [] x d = d
  Describes-Extends m m' (c ∷ cs) (i ∷ is) x (k, n, hk, hn, e, d) =
      (k, n, x c.kernel_path k hk, x c.initrd_path n hn, e, Describes-Extends m m' cs is x d)

  -- The file is the copy of the path, and earlier copies stay.
  abbrev Copied : Str → List (Str × Str) → Str → Loader W → Type 0
  Copied path m tmp t = (lookup path t.copied ≡ some tmp) × Extends m t.copied

  Copied-new :
      (path tmp : Str) (s t : Loader W)
      → lookup path s.copied ≡ none
      → t.copied ≡ (path, tmp) ∷ s.copied
      → Copied path s.copied tmp t
  Copied-new path tmp s t new e = (
    ap (lookup path) e ∙ lookup_new path tmp s.copied,
    λ k v h. ap (lookup k) e ∙ Extends-add path tmp s.copied new k v h,
  )

  module _ (dir : Str) (b : Loader W) where
    copy_once-Post :
        (part : Part) (path : Str) (s : Loader W)
        → Copying machine dir b s
        → Post
            (λ tmp t. Copied path s.copied tmp t × Copying machine dir b t)
            (copy_once machine dir part path s)
    unfolding copy_once
    copy_once-Post part path s c = elim (Option-cases (lookup path s.copied)) [
      | inl new ↦
          rw (new, reuse)
            (Post-map (λ tmp t. (t.copied ≡ (path, tmp) ∷ s.copied) × Copying machine dir b t) _ _
              (fresh_copy-Copying machine dir b part path s c new)
              (λ tmp t (e, d). (Copied-new path tmp s t new e, d)))
      | inr (f, old) ↦ rw (old, reuse) ((old, λ k v h. h), c)
    ]

    -- What the loop has done: its images, and the copies since the state `b`.
    abbrev Loads : List Config → Loader W → List OsImage → Loader W → Type 0
    Loads cs s is t = Describes t.copied cs is × Extends s.copied t.copied × Copying machine dir b t

    load_config-Post :
        (c : Config) (s : Loader W)
        → Copying machine dir b s
        → Post (λ i t. Loads (c ∷ []) s (i ∷ []) t) (load_config machine dir c s)
    unfolding load_config
    load_config-Post c s d =
        proceed-Post (λ k t. Copied c.kernel_path s.copied k t × Copying machine dir b t)
          (copy_once machine dir kernel_part c.kernel_path s) _ _
          (copy_once-Post kernel_part c.kernel_path s d)
          (λ k s1 ((hk, x1), d1).
            proceed-Post (λ n t. Copied c.initrd_path s1.copied n t × Copying machine dir b t)
              (copy_once machine dir initrd_part c.initrd_path s1) _ _
              (copy_once-Post initrd_part c.initrd_path s1 d1)
              (λ n s2 ((hn, x2), d2).
                ((k, n, x2 c.kernel_path k hk, hn, refl, tt), (λ q v h. x2 q v (x1 q v h)), d2)))

    pub load_configs-Post :
        (cs : List Config) (s : Loader W)
        → Copying machine dir b s
        → Post (λ is t. Loads cs s is t) (load_configs machine dir cs s)
    unfolding load_configs
    load_configs-Post [] s d = (tt, (λ k v h. h), d)
    load_configs-Post (c ∷ cs) s d =
        proceed-Post (λ i t. Loads (c ∷ []) s (i ∷ []) t) (load_config machine dir c s) _ _
          (load_config-Post c s d)
          (λ i s1 ((k, n, hk, hn, e, u), x1, d1).
            proceed-Post (λ is t. Loads cs s1 is t) (load_configs machine dir cs s1) _ _
              (load_configs-Post cs s1 d1)
              (λ is s2 (ds, x2, d2). (
                (k, n, x2 c.kernel_path k hk, x2 c.initrd_path n hn, e, ds),
                (λ q v h. x2 q v (x1 q v h)),
                d2,
              )))

  -- The ISO is mounted, the loop only copies, the images are described by its copies, and the clean
  -- up follows.
  abbrev pub IsLoaded : Str → List Config → Os W → List OsImage → Os W → Type 0
  IsLoaded iso cs s is end =
      (dir : Str) × (dev : Str) × (mp : Str) × (s1 : Os W) × (s2 : Os W) × (s3 : Os W) × (t : Loader
        W)
      × (call machine (temp_dir (lit "mnt-")) s ≡ (ok dir, s1))
      × (call machine (loop_new iso) s1 ≡ (ok dev, s2))
      × (call machine (mount_loop dev dir) s2 ≡ (ok mp, s3))
      × Copying machine dir (record { os = s3; files = []; copied = [] }) t
      × Describes t.copied cs is
      × (end.trace ≡ t.os.trace ++ (map close t.files ++ force_unmount mp ∷ remove dir ∷ []))

  -- If `LoadCustomConfigs` succeeds, then it has mounted the ISO at a new directory, and from then until its clean up the only calls are those of copies: for a path that has no copy yet, the file of that path below the directory is opened and copied to a new temporary file, which is rewound. The images stand for the configurations in order, each with its label, its command line, and the copies of its two paths; equal paths have one copy.
  pub load_custom_configs-Describes :
      (iso : Str) (cs : List Config) (s : Os W) (is : List OsImage)
      → (load_custom_configs machine iso cs s).0 ≡ ok is
      → IsLoaded iso cs s is (load_custom_configs machine iso cs s).1
  unfolding load_custom_configs load_mounted
  load_custom_configs-Describes iso cs s is h =
      let (dir, s1, made, h1) =
        proceed-ok (wrap_error _ (call machine (temp_dir (lit "mnt-"))) s) _ h in
      let (dev, s2, looped, h2) = proceed-ok (wrap_error _ (call machine (loop_new iso)) s1) _ h1 in
      let (mp, s3, mounted, h3) =
        proceed-ok (wrap_error _ (call machine (mount_loop dev dir)) s2) _ h2 in
      let start = fresh machine s3 in
      let inner = defer-ok (clean_up machine dir mp) (load_configs machine dir cs) start h3 in
      let (d, x, copies) =
        Post-at _ (load_configs machine dir cs start) (load_configs-Post dir start cs start no_copy)
          inner in
      let made' = unwrapped _ (call machine (temp_dir (lit "mnt-"))) s made in
      let looped' = unwrapped _ (call machine (loop_new iso)) s1 looped in
      let mounted' = unwrapped _ (call machine (mount_loop dev dir)) s2 mounted in
      (
        dir,
        dev,
        mp,
        s1,
        s2,
        s3,
        (load_configs machine dir cs start).1,
        made',
        looped',
        mounted',
        copies,
        d,
        load_custom_configs-cleans machine iso dir dev mp cs s s1 s2 s3 made' looped' mounted'
            (subst HasReturned (sym h) tt),
      )
