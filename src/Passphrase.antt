-- ===== src/Passphrase.antt =====
-- pkg/wpa/passphrase/passphrase.go. The key derivation of golang.org/x/crypto is a parameter.
use webboot.Prelude.{
  ℕ, ◌+◌, ◌/◌, ◌%◌, ◌≤◌, ◌<◌, Str, lit, [], ◌∷◌, ◌++◌, ◌≡◌, ◌↔◌, sym, ap, ◌∙◌, arith, length, ltb,
  ◌||◌, ◌==◌, if◌then◌else◌, Option, none, some,
}
use webboot.Exec.Inversion.{ok-injective}
use webboot.Exec.{Error, other, Res, ok, err}

abbrev pub min_pass_len : ℕ
min_pass_len = 8

abbrev pub max_pass_len : ℕ
max_pass_len = 63

unfoldable pub error_check : Str → Str → Option Error
error_check essid pass =
    if ltb (length pass) min_pass_len || ltb max_pass_len (length pass)
    then some (other (lit "Passphrase must be 8..63 characters"))
    else if length essid == 0
    then some (other (lit "essid cannot be empty"))
    else none

-- `hex.EncodeToString`.
unfoldable pub hex_digit : ℕ → ℕ
hex_digit d = if ltb d 10 then 48 + d else 87 + d

unfoldable pub encode_hex : Str → Str
unfolding hex_digit
encode_hex [] = []
encode_hex (b ∷ s) = hex_digit (b / 16) ∷ hex_digit (b % 16) ∷ encode_hex s

-- `fmt.Sprintf(ResultFormat, essid, pass, psk)`.
unfoldable pub result_format : Str → Str → Str → Str
result_format essid pass psk =
    lit "network={\n\tssid=\""
    ++ (essid ++ (lit "\"\n\t#psk=\"" ++ (pass ++ (lit "\"\n\tpsk=" ++ (psk ++ lit "\n}\n")))))

-- `pbkdf2.Key` at a password, a salt, a count of rounds and a length.
module _ (derive : Str → Str → ℕ → ℕ → Str) where
  abbrev checked : Option Error → Str → Str → Res Str
  checked (some e) essid pass = err e
  checked none essid pass = ok (result_format essid pass (encode_hex (derive pass essid 4096 32)))

  unfoldable pub run : Str → Str → Res Str
  run essid pass = checked (error_check essid pass) essid pass

  -- What `Run` needs of its arguments.
  abbrev pub IsFit : Str → Str → Type 0
  IsFit essid pass = (8 ≤ length pass) × (length pass ≤ 63) × (0 < length essid)

  run_fit :
      (essid pass : Str)
      → IsFit essid pass
      → run essid pass ≡ ok (result_format essid pass (encode_hex (derive pass essid 4096 32)))
  unfolding run error_check
  run_fit essid pass h = ground arith

  run_unfit : (essid pass conf : Str) → run essid pass ≡ ok conf → IsFit essid pass
  unfolding run error_check
  run_unfit essid pass conf h = ground arith

  -- `Run` succeeds exactly for passphrases of 8 to 63 bytes and network names that are not empty, and then with the one configuration that holds the name, the passphrase and the hexadecimal form of the key derived from them in 4096 rounds.
  pub run-ok_iff :
      (essid pass conf : Str)
      → (run essid pass ≡ ok conf) ↔ (
          IsFit essid pass
          × (conf ≡ result_format essid pass (encode_hex (derive pass essid 4096 32))))
  run-ok_iff essid pass conf = (
    λ h.
        let fit = run_unfit essid pass conf h in
        (fit, ok-injective (sym h ∙ run_fit essid pass fit)),
    λ (fit, e). run_fit essid pass fit ∙ ap ok (sym e),
  )
