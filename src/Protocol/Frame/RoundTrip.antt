-- ===== src/Protocol/Frame/RoundTrip.antt =====
-- frame_encode and frame_parser_next of modules/protocol/frame.c against each other: what is
-- encoded is decoded, and what is decoded was encoded.
use edgevision_gateway.Common.{
  split_pair, ℕ, ◌+◌, ◌/◌, ◌%◌, ◌≤◌, ◌<◌, ◌≡◌, refl, sym, ◌∙◌, ap, subst, drop-append, arith, some,
  Option, List, [], ◌∷◌, ◌++◌, length, All, All-append_right, true, false, Bool, if◌then◌else◌,
  drop, ◌!=◌, add_size, append_assoc,
}
use edgevision_gateway.Protocol.Crc.{IsByte}
use edgevision_gateway.Protocol.Frame.{
  FrameResult, invalid, need_more, ready, FrameParser, FrameParserStats, Next, frame_find_magic,
  frame_check_size, frame_check_crc, next_candidate, next_ready, frame_parser_next, frame_encode,
  after_size, after_crc, frame_max_payload, read_le16,
}
use edgevision_gateway.Protocol.Frame.Wire.{wire_crc, trailer, frame_bytes, frame_encode_ready}
use edgevision_gateway.Protocol.Frame.Magic.{NoMagic, frame_find_magic-true}
use edgevision_gateway.Protocol.Frame.Step.{
  next_noise_frame, next_ready_frame, next_found, next_not_found, cleaned, frame_check_crc_lem,
  read_le16_lem,
}

-- A payload of at most 240 bytes that is encoded, sent behind bytes other than 0xA5 and followed by
-- anything comes out of the next call. The noise is counted, the frame is counted, and what follows
-- stays in the buffer.
pub next-encode :
    (s : FrameParserStats) (noise payload rest : List ℕ) (output_capacity : ℕ)
    → NoMagic noise
    → All IsByte payload
    → length payload ≤ frame_max_payload
    → length payload + 5 ≤ output_capacity
    → (frame : List ℕ) × (frame_encode payload output_capacity ≡ (ready, some frame))
      × (frame_parser_next (record { buffer = noise ++ (frame ++ rest); stats = s }) ≡ (
        ready,
        record {
          buffer = rest;
          stats = record s {
            frame_ok = add_size s.frame_ok 1;
            noise_bytes = add_size s.noise_bytes (length noise);
          };
        },
        some payload,
      ))
next-encode s noise payload rest output_capacity quiet bytes h cap = (
  frame_bytes payload,
  frame_encode_ready payload output_capacity h cap bytes,
  next_noise_frame s noise payload rest quiet h,
)

-- What a successful length check says.
check_size_inv :
    (body : List ℕ) (n : ℕ)
    → frame_check_size (0xA5 ∷ 0x5A ∷ body) ≡ (ready, n)
    → (payload : List ℕ) × (lo : ℕ) × (hi : ℕ) × (rest : List ℕ) × (body
        ≡ length payload ∷ (payload ++ lo ∷ hi ∷ rest))
      × (length payload ≤ 240)
      × (n ≡ 3 + length payload + 2)
unfolding frame_check_size
check_size_inv [] n e = cc
check_size_inv (len ∷ body) n e =
    let fits : (len ≤ 240) × (len + 2 ≤ length body) × (n ≡ 3 + len + 2) = ground arith in
    let (payload, lo, hi, rest, whole, size) = split_pair len body fits.1 in
    (payload, lo, hi, rest, cc, omega arith, omega arith)

check_crc_inv :
    (payload rest : List ℕ) (lo hi : ℕ)
    → lo < 256
    → frame_check_crc
        (0xA5 ∷ 0x5A ∷ length payload ∷ (payload ++ lo ∷ hi ∷ rest))
        (3 + length payload + 2)
      ≡ ready
    → (lo ≡ wire_crc payload % 256) × (hi ≡ wire_crc payload / 256)
check_crc_inv payload rest lo hi small e =
    let test = sym (frame_check_crc_lem payload rest lo hi) ∙ e in
    let same : wire_crc payload ≡ read_le16 lo hi = ground arith in
    let sum = read_le16_lem lo hi small in (omega arith, omega arith)

need_more-ne-ready : need_more ≡ ready → ⊥
need_more-ne-ready h = cc

-- What a candidate that is handed out was.
candidate_inv :
    (s : FrameParserStats) (payload rest : List ℕ) (lo hi : ℕ) {parser : FrameParser}
    {out : Option (List ℕ)}
    → lo < 256
    → (r : FrameResult)
    → frame_check_crc
        (0xA5 ∷ 0x5A ∷ length payload ∷ (payload ++ lo ∷ hi ∷ rest))
        (3 + length payload + 2)
      ≡ r
    → after_crc
        (record { buffer = 0xA5 ∷ 0x5A ∷ length payload ∷ (payload ++ lo ∷ hi ∷ rest); stats = s })
        (3 + length payload + 2)
        r
      ≡ (ready, parser, out)
    → (out ≡ some payload)
      × (0xA5 ∷ 0x5A ∷ length payload ∷ (payload ++ lo ∷ hi ∷ rest)
          ≡ frame_bytes payload ++ parser.buffer)
unfolding after_crc
candidate_inv s payload rest lo hi small invalid check e = cc
candidate_inv s payload rest lo hi small need_more check e =
    absurd (crc-ne-need_more (sym (frame_check_crc_lem payload rest lo hi) ∙ check))
  where
    crc-ne-need_more :
        (if wire_crc payload != read_le16 lo hi then invalid else ready) ≡ need_more → ⊥
    crc-ne-need_more h = ground arith
candidate_inv s payload rest lo hi {parser} {out} small ready check e =
    let (low, high) = check_crc_inv payload rest lo hi small check in
    let whole : 0xA5 ∷ 0x5A ∷ length payload ∷ (payload ++ lo ∷ hi ∷ rest)
        ≡ frame_bytes payload ++ rest =
      rw (low, high)
        (ap (λ (t : List ℕ). 0xA5 ∷ 0x5A ∷ length payload ∷ t)
          (sym (append_assoc payload (trailer payload) rest))) in
    let result =
      sym e
      ∙ ap (λ (b : List ℕ). next_ready (record { buffer = b; stats = s }) (3 + length payload + 2))
          whole
      ∙ next_ready_frame s payload rest in
    let left : parser.buffer ≡ rest = ap (λ (t : Next). t.1.buffer) result in
    (ap (λ (t : Next). t.2) result, rw left whole)

size_inv :
    (s : FrameParserStats) (body : List ℕ) {parser : FrameParser} {out : Option (List ℕ)}
    (t : FrameResult × ℕ)
    → All IsByte body
    → frame_check_size (0xA5 ∷ 0x5A ∷ body) ≡ t
    → after_size (record { buffer = 0xA5 ∷ 0x5A ∷ body; stats = s }) t ≡ (ready, parser, out)
    → (payload : List ℕ) × (out ≡ some payload)
      × (length payload ≤ frame_max_payload)
      × (0xA5 ∷ 0x5A ∷ body ≡ frame_bytes payload ++ parser.buffer)
unfolding after_size
size_inv s body (invalid, n) bytes check e = cc
size_inv s body (need_more, n) bytes check e = cc
size_inv s body {parser} {out} (ready, n) bytes check e =
    let (payload, lo, hi, rest, whole, small, size) = check_size_inv body n check in
    let tail =
      All-append_right IsByte (length payload ∷ payload) (lo ∷ hi ∷ rest)
        (subst (λ t. All IsByte t) whole bytes) in
    let step = rw (whole, size) at e in
    let (handed, left) = candidate_inv s payload rest lo hi tail.0 _ refl step in
    (payload, handed, small, ap (λ (t : List ℕ). 0xA5 ∷ 0x5A ∷ t) whole ∙ left)

candidate_sound :
    (s : FrameParserStats) (body : List ℕ) {parser : FrameParser} {out : Option (List ℕ)}
    → All IsByte body
    → next_candidate (record { buffer = 0xA5 ∷ 0x5A ∷ body; stats = s }) ≡ (ready, parser, out)
    → (payload : List ℕ) × (out ≡ some payload)
      × (length payload ≤ frame_max_payload)
      × (0xA5 ∷ 0x5A ∷ body ≡ frame_bytes payload ++ parser.buffer)
unfolding next_candidate
candidate_sound s body bytes e =
    size_inv s body (frame_check_size (0xA5 ∷ 0x5A ∷ body)) bytes refl e

-- Whatever a call hands out as a frame stood in the buffer as the encoding of the payload: behind
-- the bytes that the call skipped, and before those that it left.
pub next-ready_sound :
    (before after : FrameParser) (out : Option (List ℕ))
    → All IsByte before.buffer
    → frame_parser_next before ≡ (ready, after, out)
    → (noise : List ℕ) × (payload : List ℕ) × (out ≡ some payload)
      × (length payload ≤ frame_max_payload)
      × (before.buffer ≡ noise ++ (frame_bytes payload ++ after.buffer))
next-ready_sound before after out bytes e = from_search (frame_find_magic before.buffer) refl
  where
    from_search :
        (t : Bool × ℕ)
        → frame_find_magic before.buffer ≡ t
        → (noise : List ℕ) × (payload : List ℕ) × (out ≡ some payload)
          × (length payload ≤ frame_max_payload)
          × (before.buffer ≡ noise ++ (frame_bytes payload ++ after.buffer))
    from_search (false, d) searched =
        absurd
          (need_more-ne-ready (ap (λ (t : Next). t.0) (sym (next_not_found before d searched) ∙ e)))
    from_search (true, d) searched =
        let (noise, rest, whole, size) = frame_find_magic-true before.buffer d searched in
        let left : drop d before.buffer ≡ 0xA5 ∷ 0x5A ∷ rest =
          rw (size, whole) (drop-append noise (0xA5 ∷ 0x5A ∷ rest)) in
        let step =
          sym (
            ap
              (λ (b : List ℕ).
                next_candidate (record { buffer = b; stats = (cleaned before d).stats }))
              left)
          ∙ sym (next_found before d searched)
          ∙ e in
        let tail =
          All-append_right IsByte noise (0xA5 ∷ 0x5A ∷ rest)
            (subst (λ t. All IsByte t) whole bytes) in
        let (payload, handed, small, frame) =
          candidate_sound (cleaned before d).stats rest tail.1.1 step in
        (noise, payload, handed, small, whole ∙ ap (λ (t : List ℕ). noise ++ t) frame)
