-- ===== src/Tests/Wifi.antt =====
-- pkg/wifi and pkg/wpa/passphrase at fixed inputs.
use webboot.Prelude.{ℕ, suc, Str, lit, text_eq, List, [], ◌∷◌, Option, none, some, ◌≡◌, refl, ◌↔◌}
use webboot.Exec.{Error, other, ok, panicked}
use webboot.Passphrase.{run, result_format, encode_hex, IsFit, run-ok_iff}
use webboot.Wifi.Option.{no_enc, wpa_psk, not_supported_proto, Network}
use webboot.Wifi.Regex.{
  find_all, find, find_from, match_here, cell_re, essid_re, enc_key_opt_re, wpa2_re, auth_suites_re,
  skip_space, literal, any_line,
}
use webboot.Wifi.Iwlist.{
  parse_iwlist_out, assemble, contains, auth_of, proto_in, suites_in, suite_of, second_field, trim,
  essid_of, enc_key_opt_of,
}
use webboot.Wifi.Iwlist.Firsts.{firsts, Distinct}
use webboot.Wifi.Iwlist.Names.{
  names, AllNamed, essid_lines, parse_iwlist_out-names, parse_iwlist_out_panics,
}
use webboot.Wifi.Regex.Lines.{unlines, hit}
use webboot.Wifi.Iwlist.Cells.{
  AccessPoint, open_cell, wep_cell, psk_cell, scan_lines, networks, IsQuiet, IsScanned, Pattern,
  pattern_body, cell_pattern, essid_pattern, key_pattern, wpa2_pattern,
}
use webboot.Wifi.Iwlist.Readable.{closed-IsReadable}
use webboot.Wifi.Iwlist.RoundTrip.{parse_iwlist_out-scan_lines}
use webboot.Wifi.Config.{generate_config}
use webboot.Wifi.Worker.{Commands, Host, IwlWorker, connect}
use webboot.Wifi.Worker.Connecting.{connect_write_failure}

abbrev scan_text : Str
scan_text =
    lit
      " Cell 01\n ESSID:\"a\"\n Encryption key:off\n Cell 02\n ESSID:\"b\"\n Encryption key:on\n IE: IEEE 802.11i/WPA2 Version 1\n Authentication Suites (1) : PSK\n Cell 03\n ESSID:\"a\"\n Encryption key:on\n"

abbrev scanned : List Network
scanned =
    record { essid = lit "a"; auth_suite = no_enc }
    ∷ record { essid = lit "b"; auth_suite = wpa_psk }
    ∷ []

parse_iwlist_out_runs : parse_iwlist_out scan_text ≡ some scanned
unfolding parse_iwlist_out assemble contains auth_of proto_in suites_in suite_of second_field trim
    essid_of enc_key_opt_of find_all find find_from match_here cell_re essid_re enc_key_opt_re
    wpa2_re auth_suites_re skip_space literal any_line text_eq lit
parse_iwlist_out_runs = refl

parse_iwlist_out-names_example :
    (ns : List Str) × AllNamed (find_all cell_re scan_text) (essid_lines scan_text) ns
    × Distinct (names scanned)
    × (names scanned ≡ firsts [] ns)
    × ((n : Str) → contains n (names scanned) ≡ contains n ns)
parse_iwlist_out-names_example = parse_iwlist_out-names scan_text scanned parse_iwlist_out_runs

-- A cell with WPA2 and no authentication suites.
abbrev bare_text : Str
bare_text = lit "Cell\nESSID:\"a\"\nEncryption key:on\nIE: IEEE 802.11i/WPA2 Version 1\n"

parse_iwlist_out_panics_example : parse_iwlist_out bare_text ≡ none
unfolding essid_of enc_key_opt_of second_field trim find_all find find_from match_here cell_re
    essid_re enc_key_opt_re wpa2_re auth_suites_re skip_space literal any_line text_eq lit
parse_iwlist_out_panics_example =
    parse_iwlist_out_panics bare_text (lit "a") (record { at = 0; text = lit "Cell" }) []
      (lit "ESSID:\"a\"") (lit "Encryption key:on") [] []
      (record { at = 33; text = lit "IE: IEEE 802.11i/WPA2 Version 1" }) refl refl refl refl refl
      refl refl

-- A machine where no configuration can be written.
abbrev pub commands : Option Error → Commands ℕ
commands unwritten = record {
  run = λ args w. (record { stdout = []; stderr = []; error = none }, suc w);
  write_file = λ path text w. (unwritten, w);
  open_log = λ w. (none, w);
  now = λ w. lit "now";
  write_log = λ text w. w;
  start = λ args w. w;
  passphrase = λ essid pass. ok pass;
}

abbrev host : Host ℕ
host = record { world = 0; stdout = []; stderr = [] }

abbrev worker : IwlWorker
worker = record { interface = lit "wlan0" }

connect_write_failure_example :
    connect (commands (some (other []))) worker (lit "a" ∷ lit "p" ∷ []) host ≡ (panicked, host)
unfolding generate_config
connect_write_failure_example =
    connect_write_failure (commands (some (other []))) worker (lit "a" ∷ lit "p" ∷ []) host
      (lit "p") (other []) refl refl

abbrev no_key : Str → Str → ℕ → ℕ → Str
no_key pass essid n m = []

run-ok_iff_example :
    (run no_key (lit "a") (lit "password") ≡ ok (result_format (lit "a") (lit "password") [])) ↔ (
      IsFit no_key (lit "a") (lit "password")
      × (result_format (lit "a") (lit "password") []
          ≡ result_format (lit "a") (lit "password") (encode_hex [])))
run-ok_iff_example =
    run-ok_iff no_key (lit "a") (lit "password") (result_format (lit "a") (lit "password") [])

abbrev detail : Str
detail = lit "                    Channel:11"

detail-missed : (p : Pattern) → hit (pattern_body p) detail ≡ none
unfolding cell_re essid_re enc_key_opt_re wpa2_re skip_space literal any_line lit
detail-missed cell_pattern = refl
detail-missed essid_pattern = refl
detail-missed key_pattern = refl
detail-missed wpa2_pattern = refl

detail-IsQuiet : IsQuiet (detail ∷ [])
unfolding skip_space lit
detail-IsQuiet = ((closed-IsReadable detail refl refl, detail-missed), tt)

abbrev access_points : List AccessPoint
access_points =
    record { address = lit "01"; details = detail ∷ []; name = lit "a"; security = psk_cell }
    ∷ record { address = lit "02"; details = []; name = lit "a"; security = open_cell }
    ∷ record { address = lit "03"; details = []; name = lit "b"; security = wep_cell }
    ∷ []

access_points-IsScanned : IsScanned access_points
unfolding lit
access_points-IsScanned = (
  ((refl, (refl, tt)), detail-IsQuiet, ((refl, refl, refl), tt)),
  (
    ((refl, (refl, tt)), tt, ((refl, refl, refl), tt)),
    (((refl, (refl, tt)), tt, ((refl, refl, refl), tt)), tt),
  ),
)

parse_iwlist_out-scan_lines_example :
    parse_iwlist_out (unlines (scan_lines access_points))
    ≡ some (
        record { essid = lit "a"; auth_suite = wpa_psk }
        ∷ record { essid = lit "b"; auth_suite = not_supported_proto }
        ∷ [])
unfolding networks contains text_eq lit
parse_iwlist_out-scan_lines_example =
    parse_iwlist_out-scan_lines access_points access_points-IsScanned
