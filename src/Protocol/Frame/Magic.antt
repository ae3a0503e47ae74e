-- ===== src/Protocol/Frame/Magic.antt =====
-- frame_find_magic of modules/protocol/frame.c: the search finds the first 0xA5 0x5A and skips
-- nothing that could begin one.
use edgevision_gateway.Common.{
  Option-cases, true, ℕ, ◌+◌, ◌≡◌, ◌≢◌, refl, ap, arith, none, some, Option, List, [], ◌∷◌, ◌++◌,
  length, All, Bool-cases, inl, inr, ◌==◌, ◌&&◌,
}
use edgevision_gateway.Protocol.Frame.{magic_from, frame_find_magic}

-- A run of bytes that holds no 0xA5.
abbrev pub NoMagic : List ℕ → Type 0
NoMagic bytes = All (λ b. b ≢ 0xA5) bytes

-- The search passes over bytes that cannot begin the magic.
pub magic_from_skip :
    (i : ℕ) (noise rest : List ℕ)
    → NoMagic noise
    → magic_from i (noise ++ 0xA5 ∷ 0x5A ∷ rest) ≡ some (i + length noise)
unfolding magic_from
magic_from_skip i [] rest h = ap {B = Option ℕ} some (omega arith)
magic_from_skip i (a ∷ []) rest h = ground arith
magic_from_skip i (a ∷ b ∷ noise) rest h =
    ground (arith, magic_from_skip (i + 1) (b ∷ noise) rest h.1)

-- Without 0xA5 nothing is found.
pub magic_from-NoMagic : (i : ℕ) (noise : List ℕ) → NoMagic noise → magic_from i noise ≡ none
unfolding magic_from
magic_from-NoMagic i [] h = refl
magic_from-NoMagic i (a ∷ []) h = refl
magic_from-NoMagic i (a ∷ b ∷ noise) h = ground (arith, magic_from-NoMagic (i + 1) (b ∷ noise) h.1)

-- Where the search stops the magic stands.
pub magic_from-some :
    (i j : ℕ) (bytes : List ℕ)
    → magic_from i bytes ≡ some j
    → (before : List ℕ) × (rest : List ℕ) × (bytes ≡ before ++ 0xA5 ∷ 0x5A ∷ rest)
      × (j ≡ i + length before)
unfolding magic_from
magic_from-some i j [] e = cc
magic_from-some i j (a ∷ []) e = cc
magic_from-some i j (a ∷ b ∷ bytes) e = elim (Bool-cases ((a == 0xA5) && (b == 0x5A))) [
  | inl here ↦ ([], bytes, ground arith, ground arith)
  | inr there ↦
      let later : magic_from (i + 1) (b ∷ bytes) ≡ some j = rw there at e in
      let (before, rest, whole, index) = magic_from-some (i + 1) j (b ∷ bytes) later in
      (a ∷ before, rest, ap (λ (t : List ℕ). a ∷ t) whole, omega arith)
]

-- A successful search stands on the magic, and discards what is before it.
pub frame_find_magic-true :
    (bytes : List ℕ) (d : ℕ)
    → frame_find_magic bytes ≡ (true, d)
    → (before : List ℕ) × (rest : List ℕ) × (bytes ≡ before ++ 0xA5 ∷ 0x5A ∷ rest)
      × (d ≡ length before)
unfolding frame_find_magic
frame_find_magic-true bytes d e = elim (Option-cases (magic_from 0 bytes)) [
  | inl nothing ↦ absurd (ground arith)
  | inr (j, found) ↦
      let index : d ≡ j = ground arith in
      let (before, rest, whole, at_j) = magic_from-some 0 j bytes found in
      (before, rest, whole, omega arith)
]
