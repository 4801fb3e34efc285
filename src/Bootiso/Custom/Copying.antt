-- ===== src/Bootiso/Custom/Copying.antt =====
-- The copies that the loop of `LoadCustomConfigs` makes, call by call.
use mathlib.Core.Path.{subst}
use webboot.Prelude.{Str, [], ◌∷◌, ◌++◌, none, ◌≡◌, refl, sym, ap, ◌∙◌}
use webboot.Exec.{Error, Res, ok, err, blocked, panicked, exited}
use webboot.Exec.Inversion.{Post, proceed-Post}
use webboot.FilePath.{join}
use webboot.Os.{
  Call, temp_file, open_file, copy, seek_start, Machine, Os, call, wrap_error, relabelled,
}
use webboot.Bootiso.Parse.{with_text}
use webboot.Bootiso.Custom.{
  Loader, Part, prefix_of, lifted, lookup, step, add_file, add_copy, fresh_copy,
}

module _ {W : Type 0} (machine : Machine W) (dir : Str) where
  -- From one state of the loop to another by copies alone, each of a path that has none yet: the
  -- file of that path below the directory is opened, copied to a new temporary file, and that is
  -- rewound. The opened file is put on the list of files, the temporary one into the map.
  pub data Copying (s : Loader W) : Loader W → Type 0 where
    no_copy : Copying s s
    one_more :
        (t : Loader W) (path prefix source tmp r v : Str) (o1 o2 o3 o4 : Os W)
        → Copying s t
        → lookup path t.copied ≡ none
        → call machine (open_file (join dir path)) t.os ≡ (ok source, o1)
        → call machine (temp_file prefix) o1 ≡ (ok tmp, o2)
        → call machine (copy tmp source) o2 ≡ (ok r, o3)
        → call machine (seek_start tmp) o3 ≡ (ok v, o4)
        → Copying s
            (record { os = o4; files = t.files ++ source ∷ []; copied = (path, tmp) ∷ t.copied })

  -- What a call of the loop leaves.
  abbrev Called : Call → Loader W → Str → Loader W → Type 0
  Called c s a t =
      (call machine c s.os ≡ (ok a, t.os)) × (t.files ≡ s.files) × (t.copied ≡ s.copied)

  lifted-Called :
      (f : Error → Error) (s : Loader W) (p : Res Str × Os W)
      → Post
          (λ a t. (p ≡ (ok a, t.os)) × (t.files ≡ s.files) × (t.copied ≡ s.copied))
          (lifted machine s (relabelled f p))
  lifted-Called f s (ok a, os) = (refl, refl, refl)
  lifted-Called f s (err e, os) = tt
  lifted-Called f s (blocked, os) = tt
  lifted-Called f s (panicked, os) = tt
  lifted-Called f s (exited n, os) = tt

  step-Called : (text : Str) (c : Call) (s : Loader W) → Post (Called c s) (step machine text c s)
  unfolding step wrap_error
  step-Called text c s = lifted-Called (with_text text) s (call machine c s.os)

  pub fresh_copy-Copying :
      (b : Loader W) (part : Part) (path : Str) (s : Loader W)
      → Copying b s
      → lookup path s.copied ≡ none
      → Post
          (λ tmp t. (t.copied ≡ (path, tmp) ∷ s.copied) × Copying b t)
          (fresh_copy machine dir part path s)
  unfolding fresh_copy add_file add_copy
  fresh_copy-Copying b part path s before new =
      let Q : Str → Loader W → Type 0 =
        λ tmp t. (t.copied ≡ (path, tmp) ∷ s.copied) × Copying b t in
      proceed-Post (Called (open_file (join dir path)) s)
        (step machine _ (open_file (join dir path)) s) Q _
        (step-Called _ (open_file (join dir path)) s)
        (λ source s1 (c1, f1, m1).
          let u = record s1 { files = s1.files ++ source ∷ [] } in
          proceed-Post (Called (temp_file (prefix_of part)) u)
            (step machine _ (temp_file (prefix_of part)) u) Q _
            (step-Called _ (temp_file (prefix_of part)) u)
            (λ tmp s2 (c2, f2, m2).
              proceed-Post (Called (copy tmp source) s2) (step machine _ (copy tmp source) s2) Q _
                (step-Called _ (copy tmp source) s2)
                (λ r s3 (c3, f3, m3).
                  proceed-Post (Called (seek_start tmp) s3) (step machine _ (seek_start tmp) s3) Q _
                    (step-Called _ (seek_start tmp) s3)
                    (λ v s4 (c4, f4, m4).
                      let files : s.files ++ source ∷ [] ≡ s4.files =
                        sym (f4 ∙ f3 ∙ f2 ∙ ap (λ l. l ++ source ∷ []) f1) in
                      let copied : s.copied ≡ s4.copied = sym (m4 ∙ m3 ∙ m2 ∙ m1) in
                      (
                        ap (◌∷◌ (path, tmp)) (sym copied),
                        subst (Copying b)
                            (λ i. record {
                              os = s4.os;
                              files = files i;
                              copied = (path, tmp) ∷ copied i;
                            })
                            (one_more s path (prefix_of part) source tmp r v s1.os s2.os s3.os s4.os
                              before new c1 c2 c3 c4),
                      )))))
