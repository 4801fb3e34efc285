-- ===== src/Cmd/Download/Files.antt =====
-- The files that `download` leaves behind.
use mathlib.Core.Path.{subst}
use webboot.Prelude.{Str, lit, [], ◌∷◌, ◌++◌, append_assoc, ◌≡◌, ap, ◌∙◌}
use webboot.Exec.{ok, Exec, proceed}
use webboot.Os.{Call, http_get, temp_file, remove, close, call, defer, ignore_error}
use webboot.Os.Traces.{IsSettled, EndsWith, defer-state, defer-IsSettled, ignore_error-state}
use webboot.Cmd.App.{Env, App}
use webboot.Cmd.Download.{sys, fill_cache, save_response, if_found, download}

module _ {W : Type 0} (env : Env W) where
  ignored-trace :
      (c : Call) (s : App W) → (ignore_error (sys env c) s).1.os.trace ≡ s.os.trace ++ c ∷ []
  unfolding sys call
  ignored-trace c s = ap (λ (t : App W). t.os.trace) (ignore_error-state (sys env c) s)

  -- A deferred call of the system is the last one.
  deferred-EndsWith :
      {A : Type 0} (c : Call) (body : Exec (App W) A) (s : App W)
      → IsSettled (defer (ignore_error (sys env c)) body s).0
      → (defer (ignore_error (sys env c)) body s).1.os.trace ≡ (body s).1.os.trace ++ c ∷ []
  deferred-EndsWith c body s h =
      ap (λ (t : App W). t.os.trace) (defer-state (ignore_error (sys env c)) body s h)
      ∙ ignored-trace c (body s).1

  found_response :
      (url path resp text : Str) (s s1 : App W)
      → sys env (http_get url) s ≡ (ok resp, s1)
      → env.status resp ≡ (200, text)
      → download env url path s
        ≡ defer (ignore_error (sys env (close resp))) (save_response env resp path) s1
  unfolding download
  found_response url path resp text s s1 got code =
      ap (λ p. proceed p (λ r. if_found env r path (env.status r))) got
      ∙ ap (λ c. if_found env resp path c s1) code

  -- Once a response of status 200 has come and the temporary file is made, the last two calls of `download` remove that file and then close the response, on every path that returns or panics.
  pub download-cleans :
      (url path resp text temp : Str) (s s1 s2 : App W)
      → sys env (http_get url) s ≡ (ok resp, s1)
      → env.status resp ≡ (200, text)
      → sys env (temp_file (lit "iso-download-")) s1 ≡ (ok temp, s2)
      → IsSettled (download env url path s).0
      → EndsWith (remove temp ∷ close resp ∷ []) (download env url path s).1.os.trace
  unfolding save_response
  download-cleans url path resp text temp s s1 s2 got code made h =
      let e = found_response url path resp text s s1 got code in
      let outer = subst (λ p. IsSettled p.0) e h in
      let saved =
        defer-IsSettled (ignore_error (sys env (close resp))) (save_response env resp path) s1
          outer in
      let d : save_response env resp path s1
          ≡ defer (ignore_error (sys env (remove temp))) (fill_cache env resp path temp) s2 =
        ap
          (λ p.
            proceed p (λ t. defer (ignore_error (sys env (remove t))) (fill_cache env resp path t)))
          made in
      let inner = subst (λ p. IsSettled p.0) d saved in
      (
        (fill_cache env resp path temp s2).1.os.trace,
        ap (λ p. p.1.os.trace) e
            ∙ deferred-EndsWith (close resp) (save_response env resp path) s1 outer
            ∙ ap (λ p. p.1.os.trace ++ close resp ∷ []) d
            ∙ ap (λ t. t ++ close resp ∷ [])
                (deferred-EndsWith (remove temp) (fill_cache env resp path temp) s2 inner)
            ∙ append_assoc (fill_cache env resp path temp s2).1.os.trace (remove temp ∷ [])
                (close resp ∷ []),
      )
