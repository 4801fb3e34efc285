-- ===== src/Bootiso/Parse/Cleanup.antt =====
-- `ParseConfigFromISO` cleans up behind itself.
use mathlib.Core.Path.{subst}
use webboot.Prelude.{Str, lit, [], ◌∷◌, ◌++◌, append_assoc, ◌≡◌, ap, ◌∙◌}
use webboot.Exec.{ok, Exec, proceed, ◌>>=◌}
use webboot.Os.{
  Call, temp_dir, remove_all, loop_new, mount_loop, unmount, Machine, Os, call, defer, ignore_error,
  wrap_error,
}
use webboot.Os.Traces.{IsSettled, EndsWith, defer-state, defer-IsSettled, wrap-ok, ignored-trace}
use webboot.Bootiso.Parse.{Parsers, with_text, in_dir, read_mounted, parse_config_from_iso}

module _ {W : Type 0} (machine : Machine W) {A : Type 0} where
  -- A deferred call of the system is the last one.
  deferred-EndsWith :
      (c : Call) (body : Exec (Os W) A) (s : Os W)
      → IsSettled (defer (ignore_error (call machine c)) body s).0
      → (defer (ignore_error (call machine c)) body s).1.trace ≡ (body s).1.trace ++ c ∷ []
  deferred-EndsWith c body s h =
      ap (λ (t : Os W). t.trace) (defer-state (ignore_error (call machine c)) body s h)
      ∙ ignored-trace machine c (body s).1

module _ {W : Type 0} (machine : Machine W) (parsers : Parsers W) (iso type : Str) where
  in_new_dir :
      (dir : Str) (s s1 : Os W)
      → call machine (temp_dir (lit "mnt-")) s ≡ (ok dir, s1)
      → parse_config_from_iso machine parsers iso type s
        ≡ defer
            (ignore_error (call machine (remove_all dir)))
            (in_dir machine parsers iso type dir)
            s1
  unfolding parse_config_from_iso
  in_new_dir dir s s1 made =
      ap
        (λ p. proceed p (λ d.
          defer (ignore_error (call machine (remove_all d))) (in_dir machine parsers iso type d)))
        (wrap-ok (with_text (lit "Error creating mount dir: "))
          (call machine (temp_dir (lit "mnt-"))) s made)

  -- Once the directory is made, its removal is the last call that `ParseConfigFromISO` makes, on every path that returns or panics.
  pub parse_config_from_iso-removes :
      (dir : Str) (s s1 : Os W)
      → call machine (temp_dir (lit "mnt-")) s ≡ (ok dir, s1)
      → IsSettled (parse_config_from_iso machine parsers iso type s).0
      → EndsWith (remove_all dir ∷ []) (parse_config_from_iso machine parsers iso type s).1.trace
  parse_config_from_iso-removes dir s s1 made h =
      let e = in_new_dir dir s s1 made in
      (
        (in_dir machine parsers iso type dir s1).1.trace,
        ap (λ p. p.1.trace) e
            ∙ deferred-EndsWith machine (remove_all dir) (in_dir machine parsers iso type dir) s1
                (subst (λ p. IsSettled p.0) e h),
      )

  in_mounted :
      (dir dev mp : Str) (s1 s2 s3 : Os W)
      → call machine (loop_new iso) s1 ≡ (ok dev, s2)
      → call machine (mount_loop dev dir) s2 ≡ (ok mp, s3)
      → in_dir machine parsers iso type dir s1
        ≡ defer
            (ignore_error (call machine (unmount mp)))
            (read_mounted machine parsers dir type)
            s3
  in_mounted dir dev mp s1 s2 s3 looped mounted =
      ap
        (λ p. proceed p (λ d.
          wrap_error (with_text (lit "Error mounting loop device: "))
            (call machine (mount_loop d dir))
          >>= λ m.
              defer (ignore_error (call machine (unmount m)))
                (read_mounted machine parsers dir type)))
        (wrap-ok (with_text (lit "Error creating loop device: ")) (call machine (loop_new iso)) s1
          looped)
      ∙ ap
          (λ p. proceed p (λ m.
            defer (ignore_error (call machine (unmount m)))
              (read_mounted machine parsers dir type)))
          (wrap-ok (with_text (lit "Error mounting loop device: "))
            (call machine (mount_loop dev dir)) s2 mounted)

  -- Once the ISO is mounted too, the last two calls of `ParseConfigFromISO` unmount it and then remove the directory, on every path that returns or panics.
  pub parse_config_from_iso-unmounts :
      (dir dev mp : Str) (s s1 s2 s3 : Os W)
      → call machine (temp_dir (lit "mnt-")) s ≡ (ok dir, s1)
      → call machine (loop_new iso) s1 ≡ (ok dev, s2)
      → call machine (mount_loop dev dir) s2 ≡ (ok mp, s3)
      → IsSettled (parse_config_from_iso machine parsers iso type s).0
      → EndsWith
          (unmount mp ∷ remove_all dir ∷ [])
          (parse_config_from_iso machine parsers iso type s).1.trace
  parse_config_from_iso-unmounts dir dev mp s s1 s2 s3 made looped mounted h =
      let e = in_new_dir dir s s1 made in
      let d = in_mounted dir dev mp s1 s2 s3 looped mounted in
      let settled = subst (λ p. IsSettled p.0) e h in
      let inner =
        subst (λ p. IsSettled p.0) d
          (defer-IsSettled (ignore_error (call machine (remove_all dir)))
            (in_dir machine parsers iso type dir) s1 settled) in
      (
        (read_mounted machine parsers dir type s3).1.trace,
        ap (λ p. p.1.trace) e
            ∙ deferred-EndsWith machine (remove_all dir) (in_dir machine parsers iso type dir) s1
                settled
            ∙ ap (λ p. p.1.trace ++ remove_all dir ∷ []) d
            ∙ ap (λ t. t ++ remove_all dir ∷ [])
                (deferred-EndsWith machine (unmount mp) (read_mounted machine parsers dir type) s3
                  inner)
            ∙ append_assoc (read_mounted machine parsers dir type s3).1.trace (unmount mp ∷ [])
                (remove_all dir ∷ []),
      )
