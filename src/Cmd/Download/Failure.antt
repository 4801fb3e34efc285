-- ===== src/Cmd/Download/Failure.antt =====
-- A failed `download` leaves no part of a file behind.
use webboot.Prelude.{
  ℕ, Bool, true, false, Str, lit, Option, none, ◌≡◌, ◌≢◌, refl, ◌∙◌, ◌==◌, Bool-cases, inl, inr,
  ◌⊎◌,
}
use mathlib.Core.Path.{subst}
use webboot.Exec.{Error, Res, ok, err, blocked, panicked, exited}
use webboot.Os.{
  http_get, temp_file, remove, remove_all, copy, seek_start, create_file, close, Machine, call,
}
use webboot.Cmd.App.{Env, App}
use webboot.Cmd.Download.{
  sys, watch, copy_response, or_removed, write_cache, fill_cache, save_response, if_found, download,
}
use webboot.Cmd.Download.Disk.{Frame}
use webboot.Cmd.Download.Errors.{
  Fails, Both, proceed-Fails, dropped-Fails, sys-Both, deferred-Fails,
}

-- The file is as it was, or there is none, or its removal has failed and what is there is what
-- the removal has left.
abbrev pub IsWhole :
    {W : Type 0} → Machine W → (W → Str → Option Str) → Str → Option Str → Option Str → Type 0
IsWhole {W} machine content path old now =
    (now ≡ old)
    ⊎ ((now ≡ none)
        ⊎ ((w : W) × (e : Error) × ((machine (remove_all path) w).0 ≡ err e)
            × (now ≡ content (machine (remove_all path) w).1 path)))

IsWhole-same :
    {W : Type 0} (machine : Machine W) (content : W → Str → Option Str) (path : Str)
    {old a b : Option Str}
    → b ≡ a
    → IsWhole machine content path old a
    → IsWhole machine content path old b
IsWhole-same machine content path e (inl h) = inl (e ∙ h)
IsWhole-same machine content path e (inr (inl h)) = inr (inl (e ∙ h))
IsWhole-same machine content path e (inr (inr (w, x, f, h))) = inr (inr (w, x, f, e ∙ h))

module _ {W : Type 0} (env : Env W) (content : W → Str → Option Str)
    (frame : Frame env.machine content) where
  -- The last copy, which is the only call that writes to the file.
  write_cache-Fails :
      (old : Option Str) (temp path : Str) (s : App W)
      → Fails
          (λ t. IsWhole env.machine content path old (content t.os.world path))
          (write_cache env temp path s)
  unfolding write_cache
  write_cache-Fails old temp path s = removed_case (sys env (copy path temp) s)
    where
      removed_case :
          (p : Res Str × App W)
          → Fails
              (λ t. IsWhole env.machine content path old (content t.os.world path))
              (or_removed env path p)
      removed_case (ok a, t) = tt
      removed_case (err e, t) =
          let removal = env.machine (remove_all path) t.os.world in
          dropped-Fails (λ u. IsWhole env.machine content path old (content u.os.world path)) e
            removal.0 (sys env (remove_all path) t).1
            (λ r done. unfold sys call in inr (inl (frame.gone path t.os.world done)))
            (λ x failed. unfold sys call in inr (inr (t.os.world, x, failed, refl)))
      removed_case (blocked, t) = tt
      removed_case (panicked, t) = tt
      removed_case (exited n, t) = tt

  -- The file is untouched until it is created.
  fill_cache-Fails :
      (old : Option Str) (resp path temp : Str) (s : App W)
      → temp ≢ path
      → content s.os.world path ≡ old
      → Fails
          (λ t. IsWhole env.machine content path old (content t.os.world path))
          (fill_cache env resp path temp s)
  unfolding fill_cache watch
  fill_cache-Fails old resp path temp s ne h =
      let R : App W → Type 0 =
        λ t. IsWhole env.machine content path old (content t.os.world path) in
      proceed-Fails (λ (_ : Bool) t. content t.os.world path ≡ old) R (watch env s) _ h
        (λ stopped t0 h0.
          proceed-Fails (λ _ t. content t.os.world path ≡ old) R
            (copy_response env temp resp stopped t0) _ (copied stopped t0 h0)
            (λ _ t1 h1.
              proceed-Fails (λ _ t. content t.os.world path ≡ old) R (sys env (seek_start temp) t1)
                _
                (sys-Both env (λ _ w. content w path ≡ old)
                  (λ w. IsWhole env.machine content path old (content w path)) (seek_start temp) t1
                  (λ _ _. frame.rewound temp path t1.os.world ∙ h1)
                  (λ _ _. inl (frame.rewound temp path t1.os.world ∙ h1)))
                (λ _ t2 h2.
                  proceed-Fails (λ _ t. Unit {0}) R (sys env (create_file path) t2) _
                    (sys-Both env (λ _ w. Unit {0})
                      (λ w. IsWhole env.machine content path old (content w path))
                      (create_file path) t2 (λ _ _. tt)
                      (λ _ e. inl (frame.refused path t2.os.world e ∙ h2)))
                    (λ _ t3 _.
                      deferred-Fails env
                        (λ w. IsWhole env.machine content path old (content w path)) (close path)
                        (write_cache env temp path) t3
                        (λ w. IsWhole-same env.machine content path (frame.closed path path w))
                        (write_cache-Fails old temp path t3)))))
    where
      copied :
          (stopped : Bool) (t : App W)
          → content t.os.world path ≡ old
          → Both
              (λ _ u. content u.os.world path ≡ old)
              (λ u. IsWhole env.machine content path old (content u.os.world path))
              (copy_response env temp resp stopped t)
      copied true t k = inl k
      copied false t k =
          sys-Both env (λ _ w. content w path ≡ old)
            (λ w. IsWhole env.machine content path old (content w path)) (copy temp resp) t
            (λ _ _. frame.copied temp resp path t.os.world ne ∙ k)
            (λ _ _. inl (frame.copied temp resp path t.os.world ne ∙ k))

  save_response-Fails :
      (old : Option Str) (resp path : Str) (s : App W)
      → ((w : W) (temp : Str)
          → (env.machine (temp_file (lit "iso-download-")) w).0 ≡ ok temp
          → temp ≢ path)
      → content s.os.world path ≡ old
      → Fails
          (λ t. IsWhole env.machine content path old (content t.os.world path))
          (save_response env resp path s)
  unfolding save_response
  save_response-Fails old resp path s apart h =
      let kept = frame.made (lit "iso-download-") path s.os.world (apart s.os.world) ∙ h in
      proceed-Fails (λ temp t. (temp ≢ path) × (content t.os.world path ≡ old))
        (λ t. IsWhole env.machine content path old (content t.os.world path))
        (sys env (temp_file (lit "iso-download-")) s) _
        (sys-Both env (λ temp w. (temp ≢ path) × (content w path ≡ old))
          (λ w. IsWhole env.machine content path old (content w path))
          (temp_file (lit "iso-download-")) s (λ temp e. (apart s.os.world temp e, kept))
          (λ _ _. inl kept))
        (λ temp t k.
          deferred-Fails env (λ w. IsWhole env.machine content path old (content w path))
            (remove temp) (fill_cache env resp path temp) t
            (λ w. IsWhole-same env.machine content path (frame.removed temp path w k.0))
            (fill_cache-Fails old resp path temp t k.0 k.1))

  if_found-Fails :
      (old : Option Str) (resp path : Str) (answer : ℕ × Str) (s : App W)
      → ((w : W) (temp : Str)
          → (env.machine (temp_file (lit "iso-download-")) w).0 ≡ ok temp
          → temp ≢ path)
      → content s.os.world path ≡ old
      → Fails
          (λ t. IsWhole env.machine content path old (content t.os.world path))
          (if_found env resp path answer s)
  if_found-Fails old resp path (code, text) s apart h = elim (Bool-cases (code == 200)) [
    | inl e ↦ rw e (
        deferred-Fails env (λ w. IsWhole env.machine content path old (content w path)) (close resp)
          (save_response env resp path) s
          (λ w. IsWhole-same env.machine content path (frame.closed resp path w))
          (save_response-Fails old resp path s apart h))
    | inr e ↦ rw e (inl h)
  ]

  -- On a system that keeps to `Frame`, and names no temporary file like the path: if `download` returns an error, then what was at its path is still there unchanged, or nothing is there any more, or `os.RemoveAll` of the path has failed and what is there is what it left.
  pub download-IsWhole :
      (url path : Str) (e : Error) (s t : App W)
      → ((w : W) (temp : Str)
          → (env.machine (temp_file (lit "iso-download-")) w).0 ≡ ok temp
          → temp ≢ path)
      → download env url path s ≡ (err e, t)
      → IsWhole env.machine content path (content s.os.world path) (content t.os.world path)
  unfolding download
  download-IsWhole url path e s t apart failed =
      let old = content s.os.world path in
      subst (Fails (λ t. IsWhole env.machine content path old (content t.os.world path))) failed (
        proceed-Fails (λ _ t. content t.os.world path ≡ old)
          (λ t. IsWhole env.machine content path old (content t.os.world path))
          (sys env (http_get url) s) _
          (sys-Both env (λ _ w. content w path ≡ old)
            (λ w. IsWhole env.machine content path old (content w path)) (http_get url) s
            (λ _ _. frame.fetched url path s.os.world)
            (λ _ _. inl (frame.fetched url path s.os.world)))
          (λ resp t1 h. if_found-Fails old resp path (env.status resp) t1 apart h))
