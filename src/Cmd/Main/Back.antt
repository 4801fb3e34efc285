-- ===== src/Cmd/Main/Back.antt =====
-- The way back from a subdirectory.
use webboot.Prelude.{
  ℕ, Str, text_eq, text_eq_iff, lit, List, [], ◌∷◌, some, get_elem?, Bool-cases, ◌≡◌, ◌≢◌, refl, ap,
  ◌∙◌, inl, inr,
}
use webboot.Exec.{back_request, ok, err}
use webboot.FilePath.{dir, clean, join, ext}
use webboot.FilePath.Parents.{IsName, dir-join}
use webboot.Menu.Entries.Members.{All, All-get_elem?}
use webboot.Cmd.Types.{Entry, dir_option}
use webboot.Cmd.App.{FileInfo, Env, App}
use webboot.Cmd.Boot.{dir_entries, exec_dir}
use webboot.Cmd.Main.Below.{clean-ne-nil}
use webboot.Cmd.Main.{Flags, leave_dir, round}

-- A directory that is listed is joined by its name.
abbrev Listed : Str → Entry → Type 0
Listed path (dir_option name p) = IsName name × (p ≡ join path name)
Listed path _ = Unit

module _ {W : Type 0} (env : Env W) where
  dir_entries-Listed :
      (path : Str) (infos : List FileInfo)
      → All (λ (f : FileInfo). IsName f.name) infos
      → All (Listed path) (dir_entries env path infos)
  unfolding dir_entries
  dir_entries-Listed path [] h = tt
  dir_entries-Listed path (f ∷ infos) h =
      let rest = dir_entries-Listed path infos h.1 in
      elim (Bool-cases f.is_dir) [
        | inl d ↦ rw (d, dir_entries) ((h.0, refl), rest)
        | inr d ↦ elim (Bool-cases (text_eq (ext f.name) (lit ".iso"))) [
          | inl i ↦ rw (d, i, dir_entries) (tt, rest)
          | inr i ↦ rw (d, i, dir_entries) rest
        ]
      ]

  parent_of :
      (path : Str) (infos : List FileInfo) (c : ℕ) (name p : Str)
      → clean path ≡ path
      → All (λ (f : FileInfo). IsName f.name) infos
      → get_elem? (dir_entries env path infos) c ≡ some (dir_option name p)
      → dir p ≡ path
  parent_of path infos c name p is_clean named at =
      let (k, e) = All-get_elem? (Listed path) _ c (dir_entries-Listed path infos named) at in
      ap dir e ∙ dir-join path name (clean-ne-nil path is_clean) k ∙ is_clean

  -- A request to go back from a directory, which is an entry in the list of a clean path and not
  -- the cache directory itself, leads back to that path: the directory it was entered from.
  pub round_back :
      (flags : Flags) (cache path : Str) (infos : List FileInfo) (c : ℕ) (name p : Str)
      (s t : App W)
      → clean path ≡ path
      → All (λ (f : FileInfo). IsName f.name) infos
      → get_elem? (dir_entries env path infos) c ≡ some (dir_option name p)
      → p ≢ cache
      → exec_dir env p s ≡ (err back_request, t)
      → round env flags cache (dir_option name p) s ≡ (ok (dir_option [] path), t)
  unfolding round
  round_back flags cache path infos c name p s t is_clean named at ne back =
      ap (leave_dir env flags cache p) back ∙ elim (Bool-cases (text_eq p cache)) [
        | inl e ↦ absurd (ne ((text_eq_iff p cache).0 e))
        | inr e ↦
            rw (e, leave_dir)
              (ap (λ d. (ok (dir_option [] d), t))
                (parent_of path infos c name p is_clean named at))
      ]
