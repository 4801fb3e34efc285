-- ===== src/Cmd/Main/Below.antt =====
-- Directories below the cache directory.
use mathlib.Core.Path.{subst}
use webboot.Prelude.{
  Str, text_eq, List, [], ◌∷◌, Bool-cases, ◌≡◌, ◌≢◌, refl, sym, ◌∙◌, inl, inr, lit, split, ◌⊎◌,
}
use webboot.FilePath.{dir, clean, join, resolve, push, ext}
use webboot.FilePath.Parents.{IsName, dir-join, clean-join}
use webboot.Menu.Entries.Members.{All}
use webboot.Cmd.Types.{
  Entry, iso, dir_option, config, interface, download_option, log_option, network, boot_config,
  mirror,
}
use webboot.Cmd.App.{FileInfo, Env}
use webboot.Cmd.Boot.{dir_entries}
use webboot.Cmd.Main.{main_entries}

-- The cache directory, and what is reached from it by names that directories list.
pub data Below (cache : Str) : Str → Type 0 where
  at_root : Below cache cache
  child : (q n : Str) → Below cache q → IsName n → Below cache (join q n)

-- A directory that is opened next is the cache directory or below it.
abbrev pub Inside : Str → Entry → Type 0
Inside cache (iso name path) = Unit
Inside cache (dir_option name path) = Below cache path
Inside cache (config l) = Unit
Inside cache (interface l) = Unit
Inside cache download_option = Unit
Inside cache log_option = Unit
Inside cache (network n) = Unit
Inside cache (boot_config image) = Unit
Inside cache (mirror m) = Unit

-- `clean []` is a dot.
pub clean-ne-nil : (p : Str) → clean p ≡ p → p ≢ []
unfolding clean resolve push split lit
clean-ne-nil [] h e = cc
clean-ne-nil (x ∷ p) h e = cc

pub Below-clean : (cache p : Str) → clean cache ≡ cache → Below cache p → clean p ≡ p
Below-clean cache _ c at_root = c
Below-clean cache _ c (child q n b k) = clean-join q n (clean-ne-nil q (Below-clean cache q c b)) k

pub parent-Below :
    (cache p : Str) → clean cache ≡ cache → Below cache p → p ≢ cache → Below cache (dir p)
parent-Below cache _ c at_root ne = absurd (ne refl)
parent-Below cache _ c (child q n b k) ne =
    let same = Below-clean cache q c b in
    subst (Below cache) (sym (dir-join q n (clean-ne-nil q same) k ∙ same)) b

pub main_entries-Inside : (cache : Str) → All (Inside cache) (main_entries cache)
unfolding main_entries
main_entries-Inside [] = (tt, (tt, tt))
main_entries-Inside (c ∷ cache) = (at_root, (tt, (tt, tt)))

abbrev pub AllNamed : Str ⊎ List FileInfo → Type 0
AllNamed (inl e) = Unit
AllNamed (inr infos) = All (λ (f : FileInfo). IsName f.name) infos

module _ {W : Type 0} (env : Env W) where
  pub dir_entries-Inside :
      (cache path : Str) (infos : List FileInfo)
      → Below cache path
      → All (λ (f : FileInfo). IsName f.name) infos
      → All (Inside cache) (dir_entries env path infos)
  unfolding dir_entries
  dir_entries-Inside cache path [] b h = tt
  dir_entries-Inside cache path (f ∷ infos) b h =
      let rest = dir_entries-Inside cache path infos b h.1 in
      elim (Bool-cases f.is_dir) [
        | inl d ↦ rw (d, dir_entries) (child path f.name b h.0, rest)
        | inr d ↦ elim (Bool-cases (text_eq (ext f.name) (lit ".iso"))) [
          | inl i ↦ rw (d, i, dir_entries) (tt, rest)
          | inr i ↦ rw (d, i, dir_entries) rest
        ]
      ]
