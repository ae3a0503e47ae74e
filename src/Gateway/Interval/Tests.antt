-- ===== src/Gateway/Interval/Tests.antt =====
-- Files with an interval.
use edgevision_gateway.Common.Text.{c_string}
use edgevision_gateway.Common.{◌≡◌, refl, arith, false, some, [], ◌∷◌, ◌++◌}
use edgevision_gateway.Gateway.Interval.{
  all_digits, decimal_from, strtol, in_int, parse_interval_ms, key, starts_with, ranged,
  parse_interval_line, fgets, strip_last, bytes, loaded, failed, parsed_line, load_line,
  load_interval_file,
}
use edgevision_gateway.Gateway.Interval.Digits.{decimal_text}
use edgevision_gateway.Gateway.Interval.Files.{crlf, end_text, load-print}

load-print_example :
    (load_interval_file false false (bytes (key ++ decimal_text 250 ++ end_text crlf)) ≡ loaded 250)
    × (parse_interval_ms (decimal_text 250) ≡ some 250)
load-print_example = load-print 250 crlf (omega arith, omega arith)

-- A sign is refused, and so is a value below the range.
load_sign : load_interval_file false false (bytes (key ++ 43 ∷ 50 ∷ 48 ∷ 48 ∷ [])) ≡ failed
unfolding load_interval_file load_line parsed_line parse_interval_line starts_with ranged
    parse_interval_ms all_digits fgets c_string strip_last
load_sign = refl

load_low : load_interval_file false false (bytes (key ++ 57 ∷ 57 ∷ 10 ∷ [])) ≡ failed
unfolding load_interval_file load_line parsed_line parse_interval_line starts_with ranged
    parse_interval_ms all_digits decimal_from strtol in_int fgets c_string strip_last
load_low = refl
