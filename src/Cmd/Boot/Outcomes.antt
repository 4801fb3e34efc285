-- ===== src/Cmd/Boot/Outcomes.antt =====
-- How `(*ISO).exec` ends.
use webboot.Prelude.{Bool, false, Str, lit, ◌≡◌, ◌≢◌, refl}
use webboot.Exec.{other, Res, ok, err, blocked, panicked, exited, Exec, proceed, ◌>>=◌}
use webboot.Exec.Inversion.{proceed-ok, value}
use webboot.Cmd.App.{Env, App}
use webboot.Bootiso.Image.{OsImage}
use webboot.Cmd.Boot.{
  exec_iso, distro_of, select_image, set_iso_path, expand, boot_or_report, boot_now, boot_image,
}

module _ {W A B : Type 0} where
  -- A chain leaves the operating system as its first step does, if the rest does not touch it.
  proceed-os :
      (p : Res A × App W) (f : A → Exec (App W) B)
      → ((a : A) (s : App W) → (f a s).1.os ≡ s.os)
      → (proceed p f).1.os ≡ p.1.os
  proceed-os (ok a, s) f h = h a s
  proceed-os (err e, s) f h = refl
  proceed-os (blocked, s) f h = refl
  proceed-os (panicked, s) f h = refl
  proceed-os (exited n, s) f h = refl

  proceed-agree :
      {C : Type 0} (p : Res A × App W) (f : A → Exec (App W) B) (g : A → Exec (App W) C)
      → ((a : A) (s : App W) → (f a s).1.os ≡ (g a s).1.os)
      → (proceed p f).1.os ≡ (proceed p g).1.os
  proceed-agree (ok a, s) f g h = h a s
  proceed-agree (err e, s) f g h = refl
  proceed-agree (blocked, s) f g h = refl
  proceed-agree (panicked, s) f g h = refl
  proceed-agree (exited n, s) f g h = refl

module _ {W : Type 0} (env : Env W) where
  -- `(*ISO).exec` never returns without an error: a boot that comes back is reported.
  pub exec_iso-ne-ok : (path : Str) (boot : Bool) (s : App W) → (exec_iso env path boot s).0 ≢ ok tt
  unfolding exec_iso boot_image
  exec_iso-ne-ok path boot s h =
      let (d, s1, e1, h1) =
        proceed-ok (distro_of env path s)
          (λ d. select_image env path d >>= λ image. boot_image env path boot d.kernel_params image)
          h in
      let (image, s2, e2, h2) =
        proceed-ok (select_image env path d s1) (boot_image env path boot d.kernel_params) h1 in
      let (u, s3, e3, h3) =
        proceed-ok (set_iso_path env path s2)
          (λ _. expand env d.kernel_params >>= boot_now env boot image) h2 in
      let (params, s4, e4, h4) =
        proceed-ok (expand env d.kernel_params s3) (boot_now env boot image) h3 in
      let (v, s5, e5, h5) =
        proceed-ok (boot_or_report env boot image params s4)
          (λ _ s'.
            (err (other (lit "kexec failed, but gave no error. Consider trying kexec-tools.")), s'))
          h4 in
      value h5

  boot_image_dry :
      (path template : Str) (image : OsImage) (s : App W)
      → (boot_image env path false template image s).1.os ≡ s.os
  unfolding boot_image set_iso_path boot_or_report
  boot_image_dry path template image s =
      proceed-os (expand env template (set_iso_path env path s).1) (boot_now env false image)
        (λ params t. refl)

  -- A dry run makes no call of the operating system once the image is chosen: it leaves it as the choice of the distribution and of the image does.
  exec_iso_dry :
      (path : Str) (s : App W)
      → (exec_iso env path false s).1.os
        ≡ ((distro_of env path >>= λ d. select_image env path d) s).1.os
  unfolding exec_iso
  exec_iso_dry path s =
      proceed-agree (distro_of env path s)
        (λ d. select_image env path d >>= boot_image env path false d.kernel_params)
        (select_image env path)
        (λ d s1.
          proceed-os (select_image env path d s1) (boot_image env path false d.kernel_params)
            (boot_image_dry path d.kernel_params))
