-- ===== src/FilePath/Prefix.antt =====
-- What stands before the last element of a path.
use mathlib.Core.List.{reverse, reverse-cons, reverse-append, append-nil}
use webboot.Prelude.{
  Bool, true, false, Str, lit, is_empty, split, join as join_text, List, [], ◌∷◌, ◌++◌,
  append_assoc, ◌≡◌, refl, sym, ap, ◌∙◌, inl, inr, ◌⊎◌,
}
use webboot.FilePath.{push, resolve, is_rooted, finish, up_to_slash, clean}
use webboot.FilePath.Elements.{
  NoSlash, AllPlain, split_append, split_one, resolve_append, Resolved, resolve-reverse,
}

-- The elements, each with a slash behind it.
unfoldable pub slashed : List Str → Str
slashed [] = []
slashed (e ∷ es) = e ++ 47 ∷ slashed es

unfoldable pub root : Bool → Str
root true = 47 ∷ []
root false = []

-- What stands before the last element of a path.
unfoldable pub prefix : Bool → List Str → Str
prefix r out = root r ++ slashed (reverse out)

join-slashed : (es : List Str) (n : Str) → join_text (47 ∷ []) (es ++ n ∷ []) ≡ slashed es ++ n
unfolding join_text slashed
join-slashed [] n = refl
join-slashed (e ∷ []) n = sym (append_assoc e (47 ∷ []) n)
join-slashed (e ∷ f ∷ es) n =
    ap (λ t. e ++ 47 ∷ t) (join-slashed (f ∷ es) n) ∙ sym (append_assoc e (47 ∷ slashed (f ∷ es)) n)

pub split-slashed :
    (es : List Str) (t : Str) → AllPlain es → split 47 (slashed es ++ t) ≡ es ++ split 47 t
unfolding slashed
split-slashed [] t h = refl
split-slashed (e ∷ es) t h =
    ap (split 47) (append_assoc e (47 ∷ slashed es) t)
    ∙ split_append e (slashed es ++ t)
    ∙ ap (λ l. l ++ split 47 (slashed es ++ t)) (split_one e h.0)
    ∙ ap (◌∷◌ e) (split-slashed es t h.1)

-- The part of a path behind its last slash does not matter.
pub up_to_slash_plain : (n t : Str) → NoSlash n → up_to_slash (reverse n ++ t) ≡ up_to_slash t
up_to_slash_plain [] t h = refl
up_to_slash_plain (x ∷ n) t h =
    ap (λ l. up_to_slash (l ++ t)) (reverse-cons x n)
    ∙ ap up_to_slash (append_assoc (reverse n) (x ∷ []) t)
    ∙ up_to_slash_plain n (x ∷ t) h.1
    ∙ rw h.0 refl

unfoldable pub EndsInSlash : Str → Type 0
EndsInSlash p = (p ≡ []) ⊎ ((q : Str) × (p ≡ q ++ 47 ∷ []))

slashed-EndsInSlash : (es : List Str) → EndsInSlash (slashed es)
unfolding EndsInSlash slashed
slashed-EndsInSlash [] = inl refl
slashed-EndsInSlash (e ∷ es) = elim (slashed-EndsInSlash es) [
  | inl z ↦ inr (e, ap (λ t. e ++ 47 ∷ t) z)
  | inr (q, z) ↦
      inr (e ++ 47 ∷ q, ap (λ t. e ++ 47 ∷ t) z ∙ sym (append_assoc e (47 ∷ q) (47 ∷ [])))
]

pub prefix-EndsInSlash : (r : Bool) (out : List Str) → EndsInSlash (prefix r out)
unfolding EndsInSlash prefix root
prefix-EndsInSlash false out = slashed-EndsInSlash (reverse out)
prefix-EndsInSlash true out = elim (slashed-EndsInSlash (reverse out)) [
  | inl z ↦ inr ([], ap (◌∷◌ 47) z)
  | inr (q, z) ↦ inr (47 ∷ q, ap (◌∷◌ 47) z)
]

pub up_to_slash_whole : (p : Str) → EndsInSlash p → up_to_slash (reverse p) ≡ reverse p
unfolding EndsInSlash
up_to_slash_whole p (inl z) = rw z refl
up_to_slash_whole p (inr (q, z)) = rw z (rw (reverse-append q (47 ∷ [])) refl)

pub finish-prefix : (r : Bool) (n : Str) (out : List Str) → finish r (n ∷ out) ≡ prefix r out ++ n
unfolding prefix root lit
finish-prefix true n out =
    ap (λ l. 47 ∷ join_text (47 ∷ []) l) (reverse-cons n out)
    ∙ ap (◌∷◌ 47) (join-slashed (reverse out) n)
finish-prefix false n out =
    ap (join_text (47 ∷ [])) (reverse-cons n out) ∙ join-slashed (reverse out) n

-- Elements that are not empty and hold no slash.
unfoldable pub AllFull : List Str → Type 0
AllFull [] = Unit
AllFull (e ∷ es) = NoSlash e × (is_empty e ≡ false) × AllFull es

AllFull-append :
    (es : List Str) (e : Str) → AllFull es → NoSlash e → is_empty e ≡ false → AllFull (es ++ e ∷ [])
unfolding AllFull
AllFull-append [] e h n f = (n, f, tt)
AllFull-append (d ∷ es) e h n f = (h.0, h.1, AllFull-append es e h.2 n f)

pub AllFull-reverse : (r : Bool) (out : List Str) → Resolved r out → AllFull (reverse out)
unfolding AllFull
AllFull-reverse r [] h = tt
AllFull-reverse r (e ∷ out) (p, n, f, h) =
    rw (reverse-cons e out) (AllFull-append (reverse out) e (AllFull-reverse r out h) n f)

pub AllFull-AllPlain : (es : List Str) → AllFull es → AllPlain es
unfolding AllFull
AllFull-AllPlain [] h = tt
AllFull-AllPlain (e ∷ es) h = (h.0, AllFull-AllPlain es h.2)

is_rooted-slashed : (es : List Str) → AllFull es → is_rooted (slashed es) ≡ false
unfolding AllFull slashed
is_rooted-slashed [] h = refl
is_rooted-slashed ([] ∷ es) h = absurd (cc)
is_rooted-slashed ((x ∷ e) ∷ es) h = h.0.0

is_rooted-prefix : (r : Bool) (out : List Str) → Resolved r out → is_rooted (prefix r out) ≡ r
unfolding prefix root
is_rooted-prefix true out h = refl
is_rooted-prefix false out h = is_rooted-slashed (reverse out) (AllFull-reverse false out h)

resolve-slashed :
    (r : Bool) (out : List Str)
    → Resolved r out
    → resolve r [] (split 47 (slashed (reverse out))) ≡ out
unfolding push split
resolve-slashed r out h =
    ap (λ t. resolve r [] (split 47 t)) (sym (append-nil (slashed (reverse out))))
    ∙ ap (resolve r [])
        (split-slashed (reverse out) [] (AllFull-AllPlain _ (AllFull-reverse r out h)))
    ∙ resolve_append r [] (reverse out) (split 47 [])
    ∙ ap (λ o. resolve r o ([] ∷ [])) (resolve-reverse r out h)
    ∙ unfold resolve in refl

resolve-prefix :
    (r : Bool) (out : List Str) → Resolved r out → resolve r [] (split 47 (prefix r out)) ≡ out
unfolding prefix root
resolve-prefix false out h = resolve-slashed false out h
resolve-prefix true out h = unfold split resolve push in resolve-slashed true out h

pub clean-prefix :
    (r : Bool) (out : List Str) → Resolved r out → clean (prefix r out) ≡ finish r out
unfolding clean
clean-prefix r out h = rw (is_rooted-prefix r out h) (ap (finish r) (resolve-prefix r out h))
