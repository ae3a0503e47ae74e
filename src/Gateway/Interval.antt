-- ===== src/Gateway/Interval.antt =====
-- core/interval_config.c: the file that holds the interval of the measurements. A C string is the list of
-- its bytes without the NUL; pointers are there.
pub mod Digits
pub mod Files
mod Tests
use edgevision_gateway.Common.Text.{c_string}
use edgevision_gateway.Common.{
  ℕ, zero, suc, ◌+◌, ◌*◌, ◌-◌, ◌^◌, Bool, true, false, not, ◌&&◌, ◌||◌, Option, none, some, List,
  [], ◌∷◌, length, take, drop, ltb, ◌==◌, if◌then◌else◌,
}

-- The test of parse_interval_ms on each character.
unfoldable pub all_digits : List ℕ → Bool
all_digits [] = true
all_digits (p ∷ text) = let rest = all_digits text in if ltb p 48 || ltb 57 p then false else rest

-- The value of strtol on digits alone.
unfoldable pub decimal_from : ℕ → List ℕ → ℕ
decimal_from value [] = value
decimal_from value (p ∷ text) = decimal_from (value * 10 + (p - 48)) text

-- strtol; `none` is ERANGE.
pub strtol : List ℕ → Option ℕ
strtol text = let value = decimal_from 0 text in if ltb (2 ^ 63 - 1) value then none else some value

-- What is tested behind strtol: parsed > INT_MAX.
pub in_int : Option ℕ → Option ℕ
in_int none = none
in_int (some parsed) = if ltb (2 ^ 31 - 1) parsed then none else some parsed

-- `none` is a return of 1. gateway_workers.c holds the same function.
pub parse_interval_ms : List ℕ → Option ℕ
parse_interval_ms text =
    if length text == 0 then none else if not (all_digits text) then none else in_int (strtol text)

-- "interval_ms="
abbrev pub key : List ℕ
key = 105 ∷ 110 ∷ 116 ∷ 101 ∷ 114 ∷ 118 ∷ 97 ∷ 108 ∷ 95 ∷ 109 ∷ 115 ∷ 61 ∷ []

-- strncmp(line, start, strlen(start)) == 0.
unfoldable pub starts_with : List ℕ → List ℕ → Bool
starts_with [] line = true
starts_with (c ∷ start) [] = false
starts_with (c ∷ start) (p ∷ line) =
    let rest = starts_with start line in if p == c then rest else false

-- The range of an interval.
pub ranged : Option ℕ → Option ℕ
ranged none = none
ranged (some value) = if ltb value 100 || ltb 60000 value then none else some value

-- `none` is a return of -1, which leaves `out_ms` alone.
pub parse_interval_line : List ℕ → Option ℕ
parse_interval_line line =
    if length line == 0
    then none
    else if not (starts_with key line)
    then none
    else ranged (parse_interval_ms (drop 12 line))

-- fgets on what is left of the file, with room for `room` characters: the line, and what is left.
pub fgets : ℕ → List ℕ → List ℕ × List ℕ
fgets zero file = ([], file)
fgets (suc room) [] = ([], [])
fgets (suc room) (c ∷ file) =
    let rest = fgets room file in if c == 10 then (c ∷ [], file) else (c ∷ rest.0, rest.1)

-- Takes one character off the end of the line, if it is the one given.
pub strip_last : ℕ → List ℕ → List ℕ
strip_last c [] = []
strip_last c (p ∷ []) = if p == c then [] else p ∷ []
strip_last c (p ∷ q ∷ line) = p ∷ strip_last c (q ∷ line)

-- The file: it does not exist, fopen fails otherwise, or its bytes.
pub data File : Type 0 where
  missing unreadable : File
  bytes : List ℕ → File

-- load_interval_file: 0 with the interval, 1, or -1.
pub data Loaded : Type 0 where
  loaded : ℕ → Loaded
  no_file failed : Loaded

pub parsed_line : Option ℕ → Loaded
parsed_line none = failed
parsed_line (some value) = loaded value

-- Behind the calls of stdio: `next` is whether fgetc brings a character.
pub load_line : Bool → Bool → Bool → List ℕ → Loaded
load_line next read_failed close_fails line =
    if next || read_failed || close_fails
    then failed
    else parsed_line (parse_interval_line (strip_last 13 (strip_last 10 (c_string line))))

-- With the answers of ferror and fclose: fgets brings NULL on an error and on an empty file.
pub load_interval_file : Bool → Bool → File → Loaded
load_interval_file read_failed close_fails missing = no_file
load_interval_file read_failed close_fails unreadable = failed
load_interval_file read_failed close_fails (bytes []) = failed
load_interval_file read_failed close_fails (bytes (c ∷ file)) =
    let (line, rest) = fgets 63 (c ∷ file) in
    load_line (not (length rest == 0)) read_failed close_fails line
