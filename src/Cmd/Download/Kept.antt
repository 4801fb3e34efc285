-- ===== src/Cmd/Download/Kept.antt =====
-- A download adds no events.
use webboot.Prelude.{
  ℕ, zero, suc, ◌≤◌, Bool, true, false, Str, lit, text_eq, List, [], ◌∷◌, length, ◌==◌, Bool-cases,
  inl, inr, arith,
}
use webboot.Exec.{Res, ok, err, blocked, panicked, exited, fail}
use webboot.Menu.Event.{Event}
use webboot.Menu.Taking.{Kept-same}
use webboot.Os.{
  Call, http_get, temp_file, remove, remove_all, copy, seek_start, create_file, close, mkdir_all,
  read_file, call, ignore_error, wrap_error,
}
use webboot.Os.Traces.{ignore_error-state}
use webboot.Cmd.Utils.{listen_for_cancel}
use webboot.Cmd.App.{Env, App}
use webboot.Cmd.App.Events.{
  events_left, Keeping, proceed-Keeping, in_os-Keeping, wrap_error-Keeping, ignore_error-Keeping,
  defer-Keeping,
}
use webboot.Cmd.Download.{
  sys, watch, copy_response, or_removed, write_cache, fill_cache, save_response, if_found, download,
  download_path, unmarshalled, distro_data,
}

fewer_events : (n : ℕ) (es : List Event) → length (listen_for_cancel n es).1 ≤ length es
unfolding listen_for_cancel
fewer_events zero es = omega arith
fewer_events (suc n) [] = omega arith
fewer_events (suc n) (e ∷ es) = elim (Bool-cases (text_eq e.id (lit "<Escape>"))) [
  | inl y ↦ rw (y, listen_for_cancel) (omega arith)
  | inr n' ↦ rw (n', listen_for_cancel) (let h = fewer_events n es in omega arith)
]

module _ {W : Type 0} (env : Env W) where
  sys-Keeping : (k : ℕ) (c : Call) (s : App W) → events_left s ≤ k → Keeping k (sys env c s)
  unfolding sys
  sys-Keeping k c s h = in_os-Keeping k (call env.machine c) s h

  -- A deferred call leaves the events alone.
  quiet :
      (k : ℕ) (c : Call) (t : App W)
      → events_left t ≤ k
      → events_left (ignore_error (sys env c) t).1 ≤ k
  unfolding sys
  quiet k c t h = rw (ignore_error-state (sys env c) t) h

  watch-Keeping : (k : ℕ) (s : App W) → events_left s ≤ k → Keeping k (watch env s)
  unfolding watch
  watch-Keeping k s h =
      let fewer = fewer_events (env.arrivals s.os.world) s.ui.events in omega arith

  copy_response-Keeping :
      (k : ℕ) (temp resp : Str) (stopped : Bool) (s : App W)
      → events_left s ≤ k
      → Keeping k (copy_response env temp resp stopped s)
  copy_response-Keeping k temp resp true s h = h
  copy_response-Keeping k temp resp false s h = sys-Keeping k (copy temp resp) s h

  or_removed-Keeping :
      (k : ℕ) (path : Str) (p : Res Str × App W) → Keeping k p → Keeping k (or_removed env path p)
  or_removed-Keeping k path (ok a, s) h = h
  or_removed-Keeping k path (err e, s) h =
      proceed-Keeping k (ignore_error (sys env (remove_all path)) s) (λ _. fail e)
        (ignore_error-Keeping k (sys env (remove_all path)) s (sys-Keeping k (remove_all path) s h))
        (λ _ t le. le)
  or_removed-Keeping k path (blocked, s) h = tt
  or_removed-Keeping k path (panicked, s) h = tt
  or_removed-Keeping k path (exited n, s) h = tt

  fill_cache-Keeping :
      (k : ℕ) (resp path temp : Str) (s : App W)
      → events_left s ≤ k
      → Keeping k (fill_cache env resp path temp s)
  unfolding fill_cache write_cache
  fill_cache-Keeping k resp path temp s h =
      proceed-Keeping k (watch env s) _ (watch-Keeping k s h) (λ b t le.
        proceed-Keeping k (copy_response env temp resp b t) _
          (copy_response-Keeping k temp resp b t le)
          (λ _ u le2.
            proceed-Keeping k (sys env (seek_start temp) u) _
              (sys-Keeping k (seek_start temp) u le2)
              (λ _ v le3.
                proceed-Keeping k (sys env (create_file path) v) _
                  (sys-Keeping k (create_file path) v le3)
                  (λ _ x le4.
                    defer-Keeping k (ignore_error (sys env (close path)))
                      (write_cache env temp path) x (quiet k (close path))
                      (or_removed-Keeping k path (sys env (copy path temp) x)
                        (sys-Keeping k (copy path temp) x le4))))))

  save_response-Keeping :
      (k : ℕ) (resp path : Str) (s : App W)
      → events_left s ≤ k
      → Keeping k (save_response env resp path s)
  unfolding save_response
  save_response-Keeping k resp path s h =
      proceed-Keeping k (sys env (temp_file _) s) _ (sys-Keeping k (temp_file _) s h) (λ temp t le.
        defer-Keeping k (ignore_error (sys env (remove temp))) (fill_cache env resp path temp) t
          (quiet k (remove temp)) (fill_cache-Keeping k resp path temp t le))

  if_found-Keeping :
      (k : ℕ) (resp path : Str) (code : ℕ) (text : Str) (s : App W)
      → events_left s ≤ k
      → Keeping k (if_found env resp path (code, text) s)
  if_found-Keeping k resp path code text s h = elim (Bool-cases (code == 200)) [
    | inl y ↦
        rw (y, if_found)
          (defer-Keeping k (ignore_error (sys env (close resp))) (save_response env resp path) s
            (quiet k (close resp)) (save_response-Keeping k resp path s h))
    | inr n ↦ rw (n, if_found) h
  ]

  pub download-Keeping :
      (k : ℕ) (url path : Str) (s : App W) → events_left s ≤ k → Keeping k (download env url path s)
  unfolding download
  download-Keeping k url path s h =
      proceed-Keeping k (sys env (http_get url) s) _ (sys-Keeping k (http_get url) s h)
        (λ resp t le. if_found-Keeping k resp path (env.status resp).0 (env.status resp).1 t le)

  pub download_path-Keeping :
      (k : ℕ) (text cache_dir name : Str) (s : App W)
      → events_left s ≤ k
      → Keeping k (download_path env text cache_dir name s)
  unfolding download_path
  download_path-Keeping k text [] name s h = h
  download_path-Keeping k text (c ∷ d) name s h =
      proceed-Keeping k (wrap_error _ (sys env (mkdir_all _)) s) _
        (wrap_error-Keeping k _ (sys env (mkdir_all _)) s (sys-Keeping k (mkdir_all _) s h))
        (λ _ t le. le)

  pub distro_data-Keeping :
      (k : ℕ) (cache_dir link : Str) (s : App W)
      → events_left s ≤ k
      → Keeping k (distro_data env cache_dir link s)
  unfolding distro_data
  distro_data-Keeping k cache_dir link s h =
      proceed-Keeping k (download_path env _ cache_dir _ s) _
        (download_path-Keeping k _ cache_dir _ s h)
        (λ path t le.
          proceed-Keeping k (wrap_error _ (download env link path) t) _
            (wrap_error-Keeping k _ (download env link path) t (download-Keeping k link path t le))
            (λ _ u le2.
              proceed-Keeping k (wrap_error _ (sys env (read_file path)) u) _
                (wrap_error-Keeping k _ (sys env (read_file path)) u
                  (sys-Keeping k (read_file path) u le2))
                (λ content v le3.
                  wrap_error-Keeping k _ (unmarshalled env content) v
                    (Kept-same events_left k (env.unmarshal content) v le3))))
