-- ===== src/Common/Text.antt =====
-- C strings: a string is the list of its bytes up to its zero, which is not part of it.
use Prim.Native.Nat.{ℕ}
use mathlib.Core.Path.{◌≡◌, refl}
use mathlib.Core.Bool.{Bool, true, false}
use mathlib.Core.List.{List, [], ◌∷◌}
use native.Mathlib.Omega.{arith}
use edgevision_gateway.Common.Tests.{if◌then◌else◌, ◌==◌}

-- The C string in an array: strlen stops at the first NUL.
unfoldable pub c_string : List ℕ → List ℕ
c_string [] = []
c_string (c ∷ line) = let rest = c_string line in if c == 0 then [] else c ∷ rest

-- strcmp(a, b) == 0.
unfoldable pub text_eq : List ℕ → List ℕ → Bool
text_eq [] [] = true
text_eq [] (y ∷ ys) = false
text_eq (x ∷ xs) [] = false
text_eq (x ∷ xs) (y ∷ ys) = let rest = text_eq xs ys in if x == y then rest else false

pub text_eq_lem : (a b : List ℕ) → text_eq a b ≡ true → a ≡ b
unfolding text_eq
text_eq_lem [] [] h = refl
text_eq_lem [] (y ∷ ys) h = absurd cc
text_eq_lem (x ∷ xs) [] h = absurd cc
text_eq_lem (x ∷ xs) (y ∷ ys) h =
    let first : x ≡ y = ground (arith, h) in let rest = text_eq_lem xs ys (ground (arith, h)) in cc

pub text_eq_refl : (a : List ℕ) → text_eq a a ≡ true
unfolding text_eq
text_eq_refl [] = refl
text_eq_refl (x ∷ xs) = let ih = text_eq_refl xs in ground (arith, ih)
