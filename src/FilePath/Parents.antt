-- ===== src/FilePath/Parents.antt =====
-- The directory of a joined path.
use mathlib.Core.List.{reverse, reverse-append, reverse-reverse}
use webboot.Prelude.{
  Bool, true, false, Str, lit, text_eq, is_empty, split, List, [], ◌∷◌, ◌++◌, ◌≡◌, ◌≢◌, refl, sym,
  ap, ◌∙◌,
}
use webboot.FilePath.{push, resolve, is_rooted, finish, up_to_slash, clean, join, dir}
use webboot.FilePath.Elements.{
  NoSlash, split-AllPlain, split_append, split_one, resolve_append, Resolved, resolve-reverse,
  resolve-Resolved,
}
use webboot.FilePath.Prefix.{
  slashed, root, prefix, split-slashed, up_to_slash_plain, prefix-EndsInSlash, up_to_slash_whole,
  finish-prefix, AllFull, AllFull-reverse, AllFull-AllPlain, clean-prefix,
}

-- A name as a directory lists it: not empty, neither `.` nor `..`, and without a slash.
abbrev pub IsName : Str → Type 0
IsName n =
    (text_eq n (lit ".") ≡ false)
    × (text_eq n (lit "..") ≡ false)
    × (is_empty n ≡ false)
    × NoSlash n

push-IsName : (r : Bool) (out : List Str) (n : Str) → IsName n → push r out n ≡ n ∷ out
unfolding push
push-IsName r out n (dot, dots, f, p) = rw (f, dot, dots) refl

elements : Str → List Str
elements d = resolve (is_rooted d) [] (split 47 d)

elements-Resolved : (d : Str) → Resolved (is_rooted d) (elements d)
unfolding elements
elements-Resolved d = resolve-Resolved (is_rooted d) [] (split 47 d) (split-AllPlain d) tt

join-IsName : (d n : Str) → d ≢ [] → IsName n → join d n ≡ prefix (is_rooted d) (elements d) ++ n
unfolding join clean elements lit resolve
join-IsName [] n h k = absurd (h refl)
join-IsName (x ∷ d) [] h k = absurd (cc)
join-IsName (x ∷ d) (y ∷ n) h k =
    let r = is_rooted (x ∷ d) in
    let parts : split 47 ((x ∷ d) ++ 47 ∷ y ∷ n) ≡ split 47 (x ∷ d) ++ (y ∷ n) ∷ [] =
      split_append (x ∷ d) (y ∷ n) ∙ ap (◌++◌ (split 47 (x ∷ d))) (split_one (y ∷ n) k.3) in
    ap (λ l. finish r (resolve r [] l)) parts
    ∙ ap (finish r) (resolve_append r [] (split 47 (x ∷ d)) ((y ∷ n) ∷ []))
    ∙ ap (finish r) (push-IsName r (elements (x ∷ d)) (y ∷ n) k)
    ∙ finish-prefix r (y ∷ n) (elements (x ∷ d))

-- The directory of a joined name is the directory that it was joined to.
pub dir-join : (d n : Str) → d ≢ [] → IsName n → dir (join d n) ≡ clean d
unfolding dir clean elements
dir-join d n h k =
    let r = is_rooted d in
    let p = prefix r (elements d) in
    let kept : up_to_slash (reverse (p ++ n)) ≡ reverse p =
      ap up_to_slash (reverse-append p n)
      ∙ up_to_slash_plain n (reverse p) k.3
      ∙ up_to_slash_whole p (prefix-EndsInSlash r (elements d)) in
    ap (λ q. clean (reverse (up_to_slash (reverse q)))) (join-IsName d n h k)
    ∙ ap (λ q. clean (reverse q)) kept
    ∙ ap clean (reverse-reverse p)
    ∙ clean-prefix r (elements d) (elements-Resolved d)

name-is_rooted : (n : Str) → IsName n → is_rooted n ≡ false
name-is_rooted [] k = refl
name-is_rooted (x ∷ n) k = k.3.0

is_rooted-named :
    (es : List Str) (n : Str) → AllFull es → IsName n → is_rooted (slashed es ++ n) ≡ false
unfolding AllFull slashed
is_rooted-named [] n h k = name-is_rooted n k
is_rooted-named ([] ∷ es) n h k = absurd (cc)
is_rooted-named ((x ∷ e) ∷ es) n h k = h.0.0

is_rooted-prefixed :
    (r : Bool) (out : List Str) (n : Str)
    → Resolved r out
    → IsName n
    → is_rooted (prefix r out ++ n) ≡ r
unfolding prefix root
is_rooted-prefixed true out n h k = refl
is_rooted-prefixed false out n h k = is_rooted-named (reverse out) n (AllFull-reverse false out h) k

resolve-named :
    (r : Bool) (out : List Str) (n : Str)
    → Resolved r out
    → IsName n
    → resolve r [] (split 47 (slashed (reverse out) ++ n)) ≡ n ∷ out
resolve-named r out n h k =
    ap (resolve r []) (split-slashed (reverse out) n (AllFull-AllPlain _ (AllFull-reverse r out h)))
    ∙ ap (λ l. resolve r [] (reverse out ++ l)) (split_one n k.3)
    ∙ resolve_append r [] (reverse out) (n ∷ [])
    ∙ ap (λ o. resolve r o (n ∷ [])) (resolve-reverse r out h)
    ∙ unfold resolve in push-IsName r out n k

resolve-prefixed :
    (r : Bool) (out : List Str) (n : Str)
    → Resolved r out
    → IsName n
    → resolve r [] (split 47 (prefix r out ++ n)) ≡ n ∷ out
unfolding prefix root
resolve-prefixed false out n h k = resolve-named false out n h k
resolve-prefixed true out n h k = unfold split resolve push in resolve-named true out n h k

clean-prefixed :
    (r : Bool) (out : List Str) (n : Str)
    → Resolved r out
    → IsName n
    → clean (prefix r out ++ n) ≡ prefix r out ++ n
unfolding clean
clean-prefixed r out n h k =
    rw (is_rooted-prefixed r out n h k) (ap (finish r) (resolve-prefixed r out n h k))
    ∙ finish-prefix r n out

-- A joined path is clean.
pub clean-join : (d n : Str) → d ≢ [] → IsName n → clean (join d n) ≡ join d n
clean-join d n h k =
    ap clean (join-IsName d n h k)
    ∙ clean-prefixed (is_rooted d) (elements d) n (elements-Resolved d) k
    ∙ sym (join-IsName d n h k)
