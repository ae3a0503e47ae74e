-- ===== src/Gateway/Interval/Files.antt =====
-- What load_interval_file makes of the lines that the gateway and its tools write.
use edgevision_gateway.Common.Text.{c_string}
use edgevision_gateway.Common.{
  ℕ, suc, ◌+◌, ◌-◌, ◌<◌, ◌≤◌, ◌≡◌, ◌≢◌, refl, ap, subst, ◌∙◌, arith, true, false, some, List, [],
  ◌∷◌, ◌++◌, length, All, ==_false, append-nil, append_assoc,
}
use edgevision_gateway.Gateway.Interval.{
  all_digits, parse_interval_ms, key, starts_with, ranged, parse_interval_line, fgets, strip_last,
  bytes, loaded, parsed_line, load_line, load_interval_file,
}
use edgevision_gateway.Gateway.Interval.Digits.{
  IsNumeral, decimal_text, digits-IsNumeral, length-digits, parse-numeral,
}

-- Characters behind the line ends and the NUL.
abbrev IsPlain : List ℕ → Type 0
IsPlain text = All (λ c. 13 < c) text

-- Room for a text, and `room` more.
abbrev add_room : List ℕ → ℕ → ℕ
add_room [] room = room
add_room (x ∷ xs) room = suc (add_room xs room)

add_room_lem : (xs : List ℕ) (room : ℕ) → add_room xs room ≡ length xs + room
add_room_lem [] room = omega arith
add_room_lem (x ∷ xs) room = omega (arith, add_room_lem xs room)

fgets-plain :
    (xs e : List ℕ) (room : ℕ)
    → IsPlain xs
    → fgets (add_room xs room) (xs ++ e) ≡ (xs ++ (fgets room e).0, (fgets room e).1)
unfolding fgets
fgets-plain [] e room h = refl
fgets-plain (x ∷ xs) e room (big, h) =
    rw (==_false x 10 (λ k. omega (arith, k, big)), fgets-plain xs e room h) refl

c_string-plain : (xs e : List ℕ) → IsPlain xs → c_string (xs ++ e) ≡ xs ++ c_string e
unfolding c_string
c_string-plain [] e h = refl
c_string-plain (x ∷ xs) e (big, h) =
    rw (==_false x 0 (λ k. omega (arith, k, big)), c_string-plain xs e h) refl

strip_last-end : (c : ℕ) (xs : List ℕ) → strip_last c (xs ++ c ∷ []) ≡ xs
unfolding strip_last
strip_last-end c [] = ground arith
strip_last-end c (x ∷ []) = ap (λ (t : List ℕ). x ∷ t) (strip_last-end c [])
strip_last-end c (x ∷ y ∷ xs) = ap (λ (t : List ℕ). x ∷ t) (strip_last-end c (y ∷ xs))

strip_last-plain : (c : ℕ) (xs : List ℕ) → c ≤ 13 → IsPlain xs → strip_last c xs ≡ xs
unfolding strip_last
strip_last-plain c [] low h = refl
strip_last-plain c (x ∷ []) low (big, h) = rw (==_false x c (λ k. omega (arith, k, big, low))) refl
strip_last-plain c (x ∷ y ∷ xs) low (big, h) =
    ap (λ (t : List ℕ). x ∷ t) (strip_last-plain c (y ∷ xs) low h)

strip_last-other : (c d : ℕ) (xs : List ℕ) → d ≢ c → strip_last c (xs ++ d ∷ []) ≡ xs ++ d ∷ []
unfolding strip_last
strip_last-other c d [] h = rw (==_false d c h) refl
strip_last-other c d (x ∷ []) h = ap (λ (t : List ℕ). x ∷ t) (strip_last-other c d [] h)
strip_last-other c d (x ∷ y ∷ xs) h = ap (λ (t : List ℕ). x ∷ t) (strip_last-other c d (y ∷ xs) h)

-- The ends of a line that the loader takes: none, LF, CR LF.
pub data LineEnd : Type 0 where
  no_end lf crlf : LineEnd

abbrev pub end_text : LineEnd → List ℕ
end_text no_end = []
end_text lf = 10 ∷ []
end_text crlf = 13 ∷ 10 ∷ []

strip-ends :
    (xs : List ℕ) (e : LineEnd)
    → IsPlain xs
    → strip_last 13 (strip_last 10 (c_string (xs ++ end_text e))) ≡ xs
unfolding c_string
strip-ends xs no_end h =
    rw (c_string-plain xs [] h, append-nil xs, strip_last-plain 10 xs (omega arith) h)
      (strip_last-plain 13 xs (omega arith) h)
strip-ends xs lf h =
    rw (c_string-plain xs (10 ∷ []) h, strip_last-end 10 xs)
      (strip_last-plain 13 xs (omega arith) h)
strip-ends xs crlf h =
    rw
      (
        c_string-plain xs (13 ∷ 10 ∷ []) h,
        ← append_assoc xs (13 ∷ []) (10 ∷ []),
        strip_last-end 10 (xs ++ 13 ∷ []),
      )
      (strip_last-end 13 xs)

digits-IsPlain : (text : List ℕ) → all_digits text ≡ true → IsPlain text
unfolding all_digits
digits-IsPlain [] h = tt
digits-IsPlain (x ∷ text) h = (ground (arith, h), digits-IsPlain text (ground (arith, h)))

fgets-end : (e : LineEnd) (room : ℕ) → fgets (suc (suc room)) (end_text e) ≡ (end_text e, [])
unfolding fgets
fgets-end no_end room = refl
fgets-end lf room = refl
fgets-end crlf room = refl

starts_with-key : (text : List ℕ) → starts_with key (key ++ text) ≡ true
unfolding starts_with
starts_with-key text = refl

abbrev pub IsInterval : ℕ → Type 0
IsInterval ms = (100 ≤ ms) × (ms ≤ 60000)

ranged-keeps : (ms : ℕ) → IsInterval ms → ranged (some ms) ≡ some ms
unfolding ranged
ranged-keeps ms (low, high) = ground arith

parse-line :
    (text : List ℕ) (ms : ℕ)
    → IsNumeral text ms
    → IsInterval ms
    → parse_interval_line (key ++ text) ≡ some ms
unfolding parse_interval_line
parse-line text ms t range =
    rw
      (
        ==_false (length (key ++ text)) 0 (λ k. omega (arith, k)),
        starts_with-key text,
        parse-numeral text ms t (omega (arith, range.1)),
      )
      (ranged-keeps ms range)

-- A whole line that fits the array is read by one fgets.
fgets-line :
    (xs : List ℕ) (e : LineEnd)
    → IsPlain xs
    → length xs ≤ 61
    → fgets 63 (xs ++ end_text e) ≡ (xs ++ end_text e, [])
fgets-line xs e h short =
    let spare = 61 - length xs in
    let room : add_room xs (suc (suc spare)) ≡ 63 =
      add_room_lem xs (suc (suc spare)) ∙ omega (arith, short) in
    subst (λ r. fgets r (xs ++ end_text e) ≡ (xs ++ end_text e, [])) room
      (rw (fgets-plain xs (end_text e) (suc (suc spare)) h, fgets-end e spare) refl)

key-IsPlain : (text : List ℕ) → IsPlain text → IsPlain (key ++ text)
key-IsPlain text h = (
  omega arith,
  (
    omega arith,
    (
      omega arith,
      (
        omega arith,
        (
          omega arith,
          (
            omega arith,
            (
              omega arith,
              (omega arith, (omega arith, (omega arith, (omega arith, (omega arith, h))))),
            ),
          ),
        ),
      ),
    ),
  ),
)

load-line :
    (text : List ℕ) (ms : ℕ) (e : LineEnd)
    → IsNumeral text ms
    → IsInterval ms
    → length text ≤ 20
    → load_interval_file false false (bytes (key ++ text ++ end_text e)) ≡ loaded ms
unfolding load_interval_file load_line parsed_line
load-line text ms e t range short =
    let plain = key-IsPlain text (digits-IsPlain text t.numeral) in
    rw
      (
        fgets-line (key ++ text) e plain (omega (arith, short)),
        strip-ends (key ++ text) e plain,
        parse-line text ms t range,
      )
      refl

-- An interval from 100 to 60000 ms that is printed with %d behind "interval_ms=", as the replies to
-- commands print it too, with no line end, LF or CR LF behind it, is loaded back from a file
-- that holds it; the printed number alone is read back by parse_interval_ms, as in "set_interval".
pub load-print :
    (ms : ℕ) (e : LineEnd)
    → IsInterval ms
    → (load_interval_file false false (bytes (key ++ decimal_text ms ++ end_text e)) ≡ loaded ms)
      × (parse_interval_ms (decimal_text ms) ≡ some ms)
load-print ms e range =
    let high = range.1 in
    let t = digits-IsNumeral 19 ms (omega (arith, high)) in
    (
      load-line (decimal_text ms) ms e t range (length-digits 20 ms),
      parse-numeral (decimal_text ms) ms t (omega (arith, high)),
    )
