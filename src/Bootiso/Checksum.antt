-- ===== src/Bootiso/Checksum.antt =====
-- pkg/bootiso: `VerifyChecksum`. The hash functions of Go's standard library are parameters.
use webboot.Prelude.{
  Bool, true, Str, lit, text_eq, text_eq_iff, Option, none, some, if◌then◌else◌, ◌≡◌, refl, ap, sym,
  ◌↔◌, ◌⊎◌, inl, inr, Bool-cases,
}
use mathlib.Core.Option.{some-injective}
use webboot.Exec.{other, ok, err, Exec, ◌>>=◌, proceed}
use webboot.Os.{open_file, read_open, close, Machine, Os, call, defer, ignore_error}
use webboot.Exec.Inversion.{proceed-ok, value, ok-injective}
use webboot.Os.Traces.{defer-ok}
use mathlib.Core.Path.{subst}
use webboot.Passphrase.{encode_hex}

-- `md5.New`, `sha1.New` and `sha256.New`, as functions of what was written.
pub record Hashes : Type 0 where
  pub md5 : Str → Str
  pub sha1 : Str → Str
  pub sha256 : Str → Str

-- The switch on the type of checksum.
unfoldable pub hash_of : Hashes → Str → Option (Str → Str)
hash_of h type =
    if text_eq type (lit "md5")
    then some h.md5
    else if text_eq type (lit "sha1")
    then some h.sha1
    else if text_eq type (lit "sha256")
    then some h.sha256
    else none

-- The names of the hash functions.
abbrev pub IsSum : Hashes → Str → (Str → Str) → Type 0
IsSum h type sum =
    ((type ≡ lit "md5") × (sum ≡ h.md5))
    ⊎ (((type ≡ lit "sha1") × (sum ≡ h.sha1)) ⊎ ((type ≡ lit "sha256") × (sum ≡ h.sha256)))

some_sum : {f g : Str → Str} → some f ≡ some g → g ≡ f
some_sum e = sym (some-injective _ _ e)

hash_of-IsSum :
    (h : Hashes) (type : Str) (sum : Str → Str) → hash_of h type ≡ some sum → IsSum h type sum
unfolding hash_of
hash_of-IsSum h type sum e = elim (Bool-cases (text_eq type (lit "md5"))) [
  | inl a ↦ inl ((text_eq_iff type (lit "md5")).0 a, some_sum (rw a at e))
  | inr a ↦ elim (Bool-cases (text_eq type (lit "sha1"))) [
    | inl b ↦ inr (inl ((text_eq_iff type (lit "sha1")).0 b, some_sum (rw (a, b) at e)))
    | inr b ↦ elim (Bool-cases (text_eq type (lit "sha256"))) [
      | inl c ↦ inr (inr ((text_eq_iff type (lit "sha256")).0 c, some_sum (rw (a, b, c) at e)))
      | inr c ↦ let no : none ≡ some sum = rw (a, b, c) at e in cc
    ]
  ]
]

-- `hex.EncodeToString(hash.Sum(nil))`, compared.
abbrev verdict : (Str → Str) → Str → Str → Bool × Str
verdict sum checksum content = let calc = encode_hex (sum content) in (text_eq calc checksum, calc)

module _ {W : Type 0} (machine : Machine W) (hashes : Hashes) where
  abbrev pub sum_up : Str → Str → Option (Str → Str) → Exec (Os W) (Bool × Str)
  sum_up iso checksum none s = (err (other (lit "Unknown checksum type.")), s)
  sum_up iso checksum (some sum) s =
      proceed (call machine (read_open iso) s)
        (λ content s'. (ok (verdict sum checksum content), s'))

  unfoldable pub verify_checksum : Str → Str → Str → Exec (Os W) (Bool × Str)
  unfolding defer ignore_error call
  verify_checksum path checksum type = do
    iso ← call machine (open_file path)
    defer (ignore_error (call machine (close iso))) (sum_up iso checksum (hash_of hashes type))

  -- The file was opened and read, and its hash compared.
  abbrev pub Compared : Str → Str → Str → Os W → Bool → Str → Type 0
  Compared path checksum type s valid calc =
      (sum : Str → Str) × (iso : Str) × (content : Str) × (s1 : Os W) × (s2 : Os W) × IsSum hashes
        type sum
      × (call machine (open_file path) s ≡ (ok iso, s1))
      × (call machine (read_open iso) s1 ≡ (ok content, s2))
      × (calc ≡ encode_hex (sum content))
      × ((valid ≡ true) ↔ (calc ≡ checksum))

  sum_up-ok :
      (iso checksum : Str) (o : Option (Str → Str)) (s1 : Os W) {valid : Bool} {calc : Str}
      → (sum_up iso checksum o s1).0 ≡ ok (valid, calc)
      → (sum : Str → Str) × (content : Str) × (s2 : Os W) × (o ≡ some sum)
        × (call machine (read_open iso) s1 ≡ (ok content, s2))
        × (verdict sum checksum content ≡ (valid, calc))
  sum_up-ok iso checksum none s1 h = absurd (value h)
  sum_up-ok iso checksum (some sum) s1 h =
      let (content, s2, read, same) = proceed-ok (call machine (read_open iso) s1) _ h in
      (sum, content, s2, refl, read, ok-injective same)

  -- `VerifyChecksum` says that a checksum was correct exactly if it is the hexadecimal form of what the hash function named md5, sha1 or sha256 makes of the content read from the file; in either case it returns that form.
  pub verify_checksum-ok :
      (path checksum type : Str) (s : Os W) (valid : Bool) (calc : Str)
      → (verify_checksum path checksum type s).0 ≡ ok (valid, calc)
      → Compared path checksum type s valid calc
  unfolding verify_checksum
  verify_checksum-ok path checksum type s valid calc h =
      let (iso, s1, opened, rest) = proceed-ok (call machine (open_file path) s) _ h in
      let inner =
        defer-ok (ignore_error (call machine (close iso)))
          (sum_up iso checksum (hash_of hashes type)) s1 rest in
      let (sum, content, s2, known, read, same) =
        sum_up-ok iso checksum (hash_of hashes type) s1 inner in
      let calculated = ap (λ p. p.1) same in
      let compared = ap (λ p. p.0) same in
      (
        sum,
        iso,
        content,
        s1,
        s2,
        hash_of-IsSum hashes type sum known,
        opened,
        read,
        sym calculated,
        subst (λ b. (b ≡ true) ↔ (calc ≡ checksum)) compared
            (subst (λ c. (text_eq (encode_hex (sum content)) checksum ≡ true) ↔ (c ≡ checksum))
              calculated (text_eq_iff (encode_hex (sum content)) checksum)),
      )
