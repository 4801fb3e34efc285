-- ===== src/Cmd/Download/Stored.antt =====
-- What a file holds after `download` is what the response had.
use webboot.Prelude.{
  ℕ, Bool, true, false, Str, lit, [], Option, some, ◌≡◌, ◌≢◌, sym, ap, ◌∙◌, ◌==◌, Bool-cases, inl,
  inr,
}
use webboot.Exec.{ok, proceed}
use webboot.Exec.Inversion.{Post, proceed-Post, Post-eq}
use webboot.Os.{http_get, temp_file, remove, copy, seek_start, create_file, close}
use webboot.Cmd.App.{Env, App}
use webboot.Cmd.Download.{
  sys, watch, copy_response, write_cache, fill_cache, save_response, if_found, download,
}
use webboot.Cmd.Download.Disk.{Disk, sys-Post, deferred-Post, or_removed-Post}

module _ {W : Type 0} (env : Env W) (content left : W → Str → Option Str)
    (disk : Disk env.machine content left) where
  write_cache-Post :
      (temp path body : Str) (s : App W)
      → content s.os.world path ≡ some []
      → left s.os.world temp ≡ some body
      → Post (λ _ t. content t.os.world path ≡ some body) (write_cache env temp path s)
  unfolding write_cache
  write_cache-Post temp path body s c l =
      or_removed-Post env (λ w. content w path ≡ some body) path (sys env (copy path temp) s)
        (sys-Post env (λ _ w. content w path ≡ some body) (copy path temp) s
          (λ r e. disk.copied path temp s.os.world e c l))

  copy_response-Post :
      (temp resp body : Str) (stopped : Bool) (s : App W)
      → content s.os.world temp ≡ some []
      → left s.os.world resp ≡ some body
      → Post (λ _ t. content t.os.world temp ≡ some body) (copy_response env temp resp stopped s)
  copy_response-Post temp resp body true s c l = tt
  copy_response-Post temp resp body false s c l =
      sys-Post env (λ _ w. content w temp ≡ some body) (copy temp resp) s
        (λ r e. disk.copied temp resp s.os.world e c l)

  -- From the new temporary file to the file in the cache.
  fill_cache-Post :
      (resp path temp body : Str) (s : App W)
      → temp ≢ path
      → content s.os.world temp ≡ some []
      → left s.os.world resp ≡ some body
      → Post (λ _ t. content t.os.world path ≡ some body) (fill_cache env resp path temp s)
  unfolding fill_cache watch
  fill_cache-Post resp path temp body s ne c l =
      let Q : Unit {0} → App W → Type 0 = λ _ t. content t.os.world path ≡ some body in
      proceed-Post (λ _ t. content t.os.world temp ≡ some body) (copy_response env temp resp _ _) Q
        _ (copy_response-Post temp resp body _ _ c l)
        (λ _ t1 h1.
          proceed-Post (λ _ t. left t.os.world temp ≡ some body) (sys env (seek_start temp) t1) Q _
            (sys-Post env (λ _ w. left w temp ≡ some body) (seek_start temp) t1
              (λ r e. disk.rewound temp t1.os.world e ∙ h1))
            (λ _ t2 h2.
              proceed-Post
                (λ _ t. (content t.os.world path ≡ some []) × (left t.os.world temp ≡ some body))
                (sys env (create_file path) t2) Q _
                (sys-Post env (λ _ w. (content w path ≡ some []) × (left w temp ≡ some body))
                  (create_file path) t2
                  (λ r e. let new = disk.created path temp t2.os.world e in (new.0, new.1 ne ∙ h2)))
                (λ _ t3 h3.
                  deferred-Post env (λ w. content w path ≡ some body) (close path)
                    (write_cache env temp path) t3 (λ w h. disk.closed path path w ∙ h)
                    (write_cache-Post temp path body t3 h3.0 h3.1))))

  save_response-Post :
      (resp path body : Str) (s : App W)
      → ((temp : Str)
          → (env.machine (temp_file (lit "iso-download-")) s.os.world).0 ≡ ok temp
          → (temp ≢ path) × (temp ≢ resp))
      → left s.os.world resp ≡ some body
      → Post (λ _ t. content t.os.world path ≡ some body) (save_response env resp path s)
  unfolding save_response
  save_response-Post resp path body s apart l =
      proceed-Post
        (λ temp t.
          (temp ≢ path) × (content t.os.world temp ≡ some []) × (left t.os.world resp ≡ some body))
        (sys env (temp_file (lit "iso-download-")) s) (λ _ t. content t.os.world path ≡ some body) _
        (sys-Post env
          (λ temp w. (temp ≢ path) × (content w temp ≡ some []) × (left w resp ≡ some body))
          (temp_file (lit "iso-download-")) s
          (λ temp e.
            let new = disk.made (lit "iso-download-") resp s.os.world e in
            ((apart temp e).0, new.0, new.1 (apart temp e).1 ∙ l)))
        (λ temp t h.
          deferred-Post env (λ w. content w path ≡ some body) (remove temp)
            (fill_cache env resp path temp) t (λ w k. disk.removed temp path w h.0 ∙ k)
            (fill_cache-Post resp path temp body t h.0 h.1 h.2))

  if_found-Post :
      (resp path body : Str) (answer : ℕ × Str) (s : App W)
      → ((temp : Str)
          → (env.machine (temp_file (lit "iso-download-")) s.os.world).0 ≡ ok temp
          → (temp ≢ path) × (temp ≢ resp))
      → left s.os.world resp ≡ some body
      → Post (λ _ t. content t.os.world path ≡ some body) (if_found env resp path answer s)
  if_found-Post resp path body (code, text) s apart l = elim (Bool-cases (code == 200)) [
    | inl e ↦ rw e (
        deferred-Post env (λ w. content w path ≡ some body) (close resp)
          (save_response env resp path) s (λ w h. disk.closed resp path w ∙ h)
          (save_response-Post resp path body s apart l))
    | inr e ↦ rw e tt
  ]

  -- On a system that keeps files as `Disk` says, and gives the temporary file a name that is neither the path nor that of the response: if `download` succeeds, then the file at its path holds what there was to read of the response.
  pub download-stored :
      (url path resp body : Str) (s s1 t : App W)
      → sys env (http_get url) s ≡ (ok resp, s1)
      → ((temp : Str)
          → (env.machine (temp_file (lit "iso-download-")) s1.os.world).0 ≡ ok temp
          → (temp ≢ path) × (temp ≢ resp))
      → left s1.os.world resp ≡ some body
      → download env url path s ≡ (ok tt, t)
      → content t.os.world path ≡ some body
  unfolding download
  download-stored url path resp body s s1 t got apart l done =
      let e = ap (λ p. proceed p (λ r. if_found env r path (env.status r))) got in
      Post-eq (λ _ t. content t.os.world path ≡ some body)
        (if_found-Post resp path body (env.status resp) s1 apart l) (sym e ∙ done)
