-- ===== src/Bootiso/Boot/Kexec.antt =====
-- When `BootCachedISO` runs the command kexec.
use webboot.Prelude.{Str, lit, List, [], ◌∷◌, ◌++◌, append_assoc, some, ◌≡◌, refl, ap, ◌∙◌}
use webboot.Exec.{Res, ok, err, blocked, panicked, exited, proceed, ◌>>=◌}
use webboot.Exec.Inversion.{HasValue}
use webboot.Os.{Call, stat, load_linux, kexec_reboot, Machine, Os, call}
use webboot.Os.Traces.{call-trace}
use webboot.Bootiso.Image.{LinuxImage, OsImage}
use webboot.Bootiso.Boot.{load, load_and_reboot, by_stat, boot_linux, with_cmdline, boot_cached_iso}

-- The load of the image is the last call if it fails, and then the result is no success; if it
-- succeeds, the jump into the image follows and is the last call.
abbrev pub AfterLoad : {W : Type 0} → Call → List Call → Res Str → Res (Unit {0}) × Os W → Type 0
AfterLoad c before (ok a) (r, t) = t.trace ≡ before ++ c ∷ kexec_reboot ∷ []
AfterLoad c before _ (r, t) = (¬ HasValue r) × (t.trace ≡ before ++ c ∷ [])

abbrev pub Loaded :
    {W : Type 0} → Machine W → LinuxImage → Str → Os W → Res (Unit {0}) × Os W → Type 0
Loaded machine li cmdline s p =
    let c = load_linux li.kernel li.initrd cmdline in AfterLoad c s.trace (machine c s.world).0 p

module _ {W : Type 0} (machine : Machine W) where
  after_call : (p : Res Str × Os W) → (proceed p (λ _ s. (ok tt, s))).1.trace ≡ p.1.trace
  after_call (ok a, s) = refl
  after_call (err e, s) = refl
  after_call (blocked, s) = refl
  after_call (panicked, s) = refl
  after_call (exited n, s) = refl

  -- From the result of the load.
  after_load :
      (c : Call) (before : List Call) (r : Res Str) (t : Os W)
      → t.trace ≡ before ++ c ∷ []
      → AfterLoad c before r (proceed (r, t) (λ _. call machine kexec_reboot >>= λ _ s. (ok tt, s)))
  after_load c before (ok a) t h =
      after_call (call machine kexec_reboot t)
      ∙ call-trace machine kexec_reboot t
      ∙ ap (λ l. l ++ kexec_reboot ∷ []) h
      ∙ append_assoc before (c ∷ []) (kexec_reboot ∷ [])
  after_load c before (err e) t h = (λ v. v, h)
  after_load c before blocked t h = (λ v. v, h)
  after_load c before panicked t h = (λ v. v, h)
  after_load c before (exited n) t h = (λ v. v, h)

  load_and_reboot-Loaded :
      (li : LinuxImage) (s : Os W) → Loaded machine li li.cmdline s (load_and_reboot machine li s)
  unfolding load_and_reboot load call
  load_and_reboot-Loaded li s =
      let c = load_linux li.kernel li.initrd li.cmdline in
      after_load c s.trace (machine c s.world).0 (call machine c s).1 refl

  -- Where `/sbin/kexec` can be looked at, `BootCachedISO` does not start it, contrary to the comment that it is preferred: its next call loads the image, with the given parameters behind its command line; if that succeeds it jumps into the image, by its last call, and if not, it makes no other call and does not succeed.
  pub boot_cached_iso-Loaded :
      (image : OsImage) (li : LinuxImage) (params info : Str) (s s1 : Os W)
      → image.linux ≡ some li
      → call machine (stat (lit "/sbin/kexec")) s ≡ (ok info, s1)
      → Loaded machine li
          (li.cmdline ++ (lit " " ++ params))
          s1
          (boot_cached_iso machine image params s)
  unfolding boot_cached_iso
  boot_cached_iso-Loaded image li params info s s1 linux there =
      let booted = with_cmdline machine li (li.cmdline ++ (lit " " ++ params)) in
      let e : boot_cached_iso machine image params s ≡ load_and_reboot machine booted s1 =
        ap (λ o. boot_linux machine params o s) linux ∙ ap (by_stat machine booted) there in
      rw e (load_and_reboot-Loaded booted s1)
