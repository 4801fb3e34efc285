-- ===== src/Cmd/Utils/Sorting.antt =====
-- The menu of distributions does not depend on the order in which `range` comes to a map.
use webboot.Prelude.{
  Bool, true, false, Str, List, [], ◌∷◌, map, ◌||◌, ◌≡◌, refl, sym, ap, ◌∙◌, arith, if◌then◌else◌,
  Bool-cases, inl, inr,
}
use webboot.Cmd.Types.{Distro, config}
use webboot.Cmd.Utils.{Distros, text_lt, insert, sort, supported_distro_entries, infer_iso_type}

-- Two lists with the same members, as often, in another order.
pub data Reordered {A : Type 0} : List A → List A → Type 0 where
  none : Reordered [] []
  keep : {a : A} {l m : List A} → Reordered l m → Reordered (a ∷ l) (a ∷ m)
  swap : {a b : A} {l : List A} → Reordered (a ∷ b ∷ l) (b ∷ a ∷ l)
  chain : {l m n : List A} → Reordered l m → Reordered m n → Reordered l n

text_lt_irrefl : (a : Str) → text_lt a a ≡ false
unfolding text_lt
text_lt_irrefl [] = refl
text_lt_irrefl (x ∷ a) = ground (arith, text_lt_irrefl a)

text_lt_asym : (a b : Str) → text_lt a b ≡ true → text_lt b a ≡ false
unfolding text_lt
text_lt_asym [] [] h = refl
text_lt_asym [] (y ∷ b) h = refl
text_lt_asym (x ∷ a) [] h = cc
text_lt_asym (x ∷ a) (y ∷ b) h = ground (arith, text_lt_asym a b)

text_lt_trans : (a b c : Str) → text_lt a b ≡ true → text_lt b c ≡ true → text_lt a c ≡ true
unfolding text_lt
text_lt_trans a b [] h k = k
text_lt_trans a [] (z ∷ c) h k = cc
text_lt_trans [] (y ∷ b) (z ∷ c) h k = refl
text_lt_trans (x ∷ a) (y ∷ b) (z ∷ c) h k = ground (arith, text_lt_trans a b c)

text_lt_total : (a b : Str) → text_lt a b ≡ false → text_lt b a ≡ false → a ≡ b
unfolding text_lt
text_lt_total [] [] h k = refl
text_lt_total [] (y ∷ b) h k = cc
text_lt_total (x ∷ a) [] h k = cc
text_lt_total (x ∷ a) (y ∷ b) h k = ground (arith, text_lt_total a b)

insert_comm : (x y : Str) (l : List Str) → insert x (insert y l) ≡ insert y (insert x l)
unfolding insert
insert_comm x y [] = ground (arith, text_lt_asym x y, text_lt_total x y)
insert_comm x y (z ∷ l) = ground (
  arith,
  insert_comm x y l,
  text_lt_asym x y,
  text_lt_total x y,
  text_lt_trans z x y,
  text_lt_trans z y x,
  text_lt_trans y x z,
  text_lt_trans x y z,
  text_lt_asym x z,
  text_lt_asym y z,
)

sort-Reordered : {l m : List Str} → Reordered l m → sort l ≡ sort m
unfolding sort
sort-Reordered none = refl
sort-Reordered (keep {a} r) = ap (insert a) (sort-Reordered r)
sort-Reordered (swap {a} {b} {l}) = insert_comm a b (sort l)
sort-Reordered (chain r q) = sort-Reordered r ∙ sort-Reordered q

map-Reordered :
    {A B : Type 0} (f : A → B) {l m : List A} → Reordered l m → Reordered (map f l) (map f m)
map-Reordered f none = none
map-Reordered f (keep r) = keep (map-Reordered f r)
map-Reordered f swap = swap
map-Reordered f (chain r q) = chain (map-Reordered f r) (map-Reordered f q)

-- The menu of distributions is the same in whatever order `range` comes to the pairs of the map.
pub supported_distro_entries-Reordered :
    (ds es : Distros) → Reordered ds es → supported_distro_entries ds ≡ supported_distro_entries es
unfolding supported_distro_entries
supported_distro_entries-Reordered ds es r =
    ap (map config) (sort-Reordered (map-Reordered (λ (p : Str × Distro). p.0) r))

module _ (matches : Str → Str → Bool) (name : Str) where
  -- All distributions whose pattern matches have one name.
  abbrev pub AllCalled : Str → Distros → Type 0
  AllCalled n [] = Unit
  AllCalled n ((k, d) ∷ ds) = (matches d.iso_pattern name ≡ true → k ≡ n) × AllCalled n ds

  abbrev pub any_match : Distros → Bool
  any_match [] = false
  any_match ((k, d) ∷ ds) = matches d.iso_pattern name || any_match ds

  infer_by_name :
      (n : Str) (ds : Distros)
      → AllCalled n ds
      → infer_iso_type matches name ds ≡ (if any_match ds then n else [])
  unfolding infer_iso_type
  infer_by_name n [] h = refl
  infer_by_name n ((k, d) ∷ ds) h = elim (Bool-cases (matches d.iso_pattern name)) [
    | inl y ↦ rw (y, infer_iso_type, any_match) (h.0 y)
    | inr other ↦ rw (other, infer_iso_type, any_match) (infer_by_name n ds h.1)
  ]

  any_match-Reordered : {ds es : Distros} → Reordered ds es → any_match ds ≡ any_match es
  any_match-Reordered none = refl
  any_match-Reordered (keep {a} r) =
      ap (λ b. matches a.1.iso_pattern name || b) (any_match-Reordered r)
  any_match-Reordered (swap {a} {b} {l}) = ground (arith)
  any_match-Reordered (chain r q) = any_match-Reordered r ∙ any_match-Reordered q

  AllCalled-Reordered :
      (n : Str) {ds es : Distros} → Reordered ds es → AllCalled n ds → AllCalled n es
  AllCalled-Reordered n none h = h
  AllCalled-Reordered n (keep r) h = (h.0, AllCalled-Reordered n r h.1)
  AllCalled-Reordered n swap h = (h.1.0, (h.0, h.1.1))
  AllCalled-Reordered n (chain r q) h = AllCalled-Reordered n q (AllCalled-Reordered n r h)

  -- If all the distributions whose pattern matches the name of an ISO have one name, then `inferIsoType` gives the same in whatever order `range` comes to the pairs of the map: that name, if any pattern matches, or else the empty name.
  pub infer_iso_type-Reordered :
      (n : Str) (ds es : Distros)
      → Reordered ds es
      → AllCalled n ds
      → (infer_iso_type matches name ds ≡ infer_iso_type matches name es)
        × (infer_iso_type matches name ds ≡ (if any_match ds then n else []))
  infer_iso_type-Reordered n ds es r h = (
    infer_by_name n ds h
        ∙ ap (λ b. if b then n else []) (any_match-Reordered r)
        ∙ sym (infer_by_name n es (AllCalled-Reordered n r h)),
    infer_by_name n ds h,
  )
