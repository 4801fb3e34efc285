-- ===== src/Bootiso/Custom/Cleanup.antt =====
-- `LoadCustomConfigs` cleans up behind itself.
use mathlib.Core.Path.{subst}
use webboot.Prelude.{
  Str, lit, List, [], ◌∷◌, ◌++◌, append-nil, append_assoc, map, ◌≡◌, refl, sym, ap, ◌∙◌,
}
use webboot.Exec.{Res, ok, err, blocked, panicked, exited, Exec, proceed, ◌>>=◌}
use webboot.Os.{
  Call, temp_dir, remove, close, loop_new, mount_loop, force_unmount, Machine, Os, call, returned,
  leave, defer, wrap_error, ignore_error, dropped, or_fatal, fatal,
}
use webboot.Os.Traces.{wrap-ok, call-trace}
use webboot.Bootiso.Image.{Config}
use webboot.Bootiso.Parse.{with_text}
use webboot.Bootiso.Custom.{
  Loader, load_configs, close_files, clean_up, fresh, load_mounted, load_custom_configs,
}

-- The function has returned, with a value or an error.
abbrev pub HasReturned : {A : Type 0} → Res A → Type 0
HasReturned (ok a) = Unit
HasReturned (err e) = Unit
HasReturned _ = ⊥

module _ {S A B C : Type 0} where
  regroup :
      (p : Res A × S) (f : A → Exec S B) (g : B → Exec S C)
      → proceed (proceed p f) g ≡ proceed p (λ a s. proceed (f a s) g)
  regroup (ok a, s) f g = refl
  regroup (err e, s) f g = refl
  regroup (blocked, s) f g = refl
  regroup (panicked, s) f g = refl
  regroup (exited n, s) f g = refl

module _ {S A : Type 0} (k : Exec S (Unit {0})) where
  -- What follows a call whose error is dropped.
  past_dropped :
      (p : Res A × S)
      → HasReturned (proceed (dropped p) (λ _. k)).0
      → HasReturned (k p.1).0 × (proceed (dropped p) (λ _. k) ≡ k p.1)
  past_dropped (ok a, s) h = (h, refl)
  past_dropped (err e, s) h = (h, refl)
  past_dropped (blocked, s) h = absurd h
  past_dropped (panicked, s) h = absurd h
  past_dropped (exited n, s) h = absurd h

  -- What follows a call whose error ends the process.
  past_fatal :
      (p : Res A × S)
      → HasReturned (proceed (fatal p) (λ _. k)).0
      → HasReturned (k p.1).0 × (proceed (fatal p) (λ _. k) ≡ k p.1)
  past_fatal (ok a, s) h = (h, refl)
  past_fatal (err e, s) h = absurd h
  past_fatal (blocked, s) h = absurd h
  past_fatal (panicked, s) h = absurd h
  past_fatal (exited n, s) h = absurd h

module _ {A : Type 0} where
  returned-HasReturned :
      (r : Res A) (c : Res (Unit {0})) → HasReturned (returned r c) → HasReturned c
  returned-HasReturned r (ok u) h = tt
  returned-HasReturned r (err e) h = tt
  returned-HasReturned r blocked h = h
  returned-HasReturned r panicked h = h
  returned-HasReturned r (exited n) h = h

module _ {S A : Type 0} where
  last_fatal : (p : Res A × S) → HasReturned (fatal p).0 → fatal p ≡ (ok tt, p.1)
  last_fatal (ok a, s) h = refl
  last_fatal (err e, s) h = absurd h
  last_fatal (blocked, s) h = absurd h
  last_fatal (panicked, s) h = absurd h
  last_fatal (exited n, s) h = absurd h

  leave-HasReturned :
      (cleanup : Exec S (Unit {0})) (p : Res A × S)
      → HasReturned (leave cleanup p).0
      → HasReturned (cleanup p.1).0 × ((leave cleanup p).1 ≡ (cleanup p.1).1)
  leave-HasReturned cleanup (ok a, s) h = (returned-HasReturned (ok a) (cleanup s).0 h, refl)
  leave-HasReturned cleanup (err e, s) h = (returned-HasReturned (err e) (cleanup s).0 h, refl)
  leave-HasReturned cleanup (panicked, s) h = (returned-HasReturned panicked (cleanup s).0 h, refl)
  leave-HasReturned cleanup (blocked, s) h = absurd h
  leave-HasReturned cleanup (exited n, s) h = absurd h

module _ {W : Type 0} (machine : Machine W) where
  past_close :
      (fs : List Str) (k : Exec (Os W) (Unit {0})) (s : Os W)
      → HasReturned (proceed (close_files machine fs s) (λ _. k)).0
      → (t : Os W) × (t.trace ≡ s.trace ++ map close fs)
        × HasReturned (k t).0
        × (proceed (close_files machine fs s) (λ _. k) ≡ k t)
  unfolding close_files ignore_error
  past_close [] k s h = (s, sym (append-nil s.trace), h, refl)
  past_close (f ∷ fs) k s h =
      let c = call machine (close f) s in
      let e = regroup (dropped c) (λ _. close_files machine fs) (λ _. k) in
      let (h1, e1) =
        past_dropped (λ u. proceed (close_files machine fs u) (λ _. k)) c
          (subst (λ p. HasReturned p.0) e h) in
      let (t, tr, h2, e2) = past_close fs k c.1 h1 in
      (
        t,
        tr
            ∙ ap (λ l. l ++ map close fs) (call-trace machine (close f) s)
            ∙ append_assoc s.trace (close f ∷ []) (map close fs),
        h2,
        e ∙ e1 ∙ e2,
      )

  -- The calls of the deferred function.
  clean_up-trace :
      (dir mp : Str) (s : Loader W)
      → HasReturned (clean_up machine dir mp s).0
      → (clean_up machine dir mp s).1.os.trace
        ≡ s.os.trace ++ (map close s.files ++ force_unmount mp ∷ remove dir ∷ [])
  unfolding clean_up or_fatal
  clean_up-trace dir mp s h =
      let un = call machine (force_unmount mp) in
      let rm = or_fatal (call machine (remove dir)) in
      let (t, tr, h1, e1) = past_close s.files (λ u. proceed (fatal (un u)) (λ _. rm)) s.os h in
      let (h2, e2) = past_fatal rm (un t) h1 in
      let e3 = last_fatal (call machine (remove dir) (un t).1) h2 in
      ap (λ p. p.1.trace) (e1 ∙ e2 ∙ e3)
      ∙ append_assoc t.trace (force_unmount mp ∷ []) (remove dir ∷ [])
      ∙ ap (λ l. l ++ force_unmount mp ∷ remove dir ∷ []) tr
      ∙ append_assoc s.os.trace (map close s.files) (force_unmount mp ∷ remove dir ∷ [])

  -- The files to close when the loop has ended, and the calls made until then.
  abbrev pub opened : Str → List Config → Os W → List Str
  opened dir configs s = (load_configs machine dir configs (fresh machine s)).1.files

  abbrev pub calls_in_loop : Str → List Config → Os W → List Call
  calls_in_loop dir configs s = (load_configs machine dir configs (fresh machine s)).1.os.trace

  mounted-trace :
      (dir mp : Str) (configs : List Config) (s : Os W)
      → HasReturned (load_mounted machine dir mp configs s).0
      → (load_mounted machine dir mp configs s).1.trace
        ≡ calls_in_loop dir configs s
          ++ (map close (opened dir configs s) ++ force_unmount mp ∷ remove dir ∷ [])
  unfolding load_mounted defer
  mounted-trace dir mp configs s h =
      let p = load_configs machine dir configs (fresh machine s) in
      let (h1, e) = leave-HasReturned (clean_up machine dir mp) p h in
      ap (λ l. l.os.trace) e ∙ clean_up-trace dir mp p.1 h1

  -- Once the ISO is mounted, a `LoadCustomConfigs` that returns, with images or an error, has
  -- made these calls behind those of its loop: it closes the files that the loop put on its list
  -- of opened files, in order, unmounts the ISO by force, and removes the directory.
  pub load_custom_configs-cleans :
      (iso dir dev mp : Str) (configs : List Config) (s s1 s2 s3 : Os W)
      → call machine (temp_dir (lit "mnt-")) s ≡ (ok dir, s1)
      → call machine (loop_new iso) s1 ≡ (ok dev, s2)
      → call machine (mount_loop dev dir) s2 ≡ (ok mp, s3)
      → HasReturned (load_custom_configs machine iso configs s).0
      → (load_custom_configs machine iso configs s).1.trace
        ≡ calls_in_loop dir configs s3
          ++ (map close (opened dir configs s3) ++ force_unmount mp ∷ remove dir ∷ [])
  unfolding load_custom_configs
  load_custom_configs-cleans iso dir dev mp configs s s1 s2 s3 made looped mounted h =
      let mount = λ (d : Str). λ (v : Str).
        wrap_error (with_text (lit "Error on loopdev.Mount; in , and got "))
          (call machine (mount_loop v d))
        >>= λ m. load_mounted machine d m configs in
      let e : load_custom_configs machine iso configs s ≡ load_mounted machine dir mp configs s3 =
        ap
          (λ p. proceed p (λ d.
            wrap_error (with_text (lit "Error on loop.New; in , and got "))
              (call machine (loop_new iso))
            >>= mount d))
          (wrap-ok (with_text (lit "Error on ioutil.TempDir; in , and got "))
            (call machine (temp_dir (lit "mnt-"))) s made)
        ∙ ap (λ p. proceed p (mount dir))
            (wrap-ok (with_text (lit "Error on loop.New; in , and got "))
              (call machine (loop_new iso)) s1 looped)
        ∙ ap (λ p. proceed p (λ m. load_mounted machine dir m configs))
            (wrap-ok (with_text (lit "Error on loopdev.Mount; in , and got "))
              (call machine (mount_loop dev dir)) s2 mounted) in
      ap (λ p. p.1.trace) e ∙ mounted-trace dir mp configs s3 (subst (λ p. HasReturned p.0) e h)
