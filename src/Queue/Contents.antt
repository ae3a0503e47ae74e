-- ===== src/Queue/Contents.antt =====
-- The items of the queue in modules/blocking_queue/blocking_queue.c, oldest first, and what a write at
-- the tail and a read at the head do to them.
use edgevision_gateway.Common.{
  ℕ, zero, suc, ◌+◌, ◌-◌, ◌%◌, ◌≤◌, ◌<◌, ◌≡◌, ◌≢◌, refl, sym, ◌∙◌, ap, ap₂, arith, List, [], ◌∷◌,
  ◌++◌, length, get_or, set, get_or-set_self, get_or-set_ne, add_size, ◌⊎◌, inl, inr,
}
use native.Mathlib.Decide.{dec_lt}
use native.Mathlib.Nat.{mod-eq_of_lt, mod-eq-sub-mod}
use edgevision_gateway.Queue.{Item, BoundedQueue}
use edgevision_gateway.Queue.Inv.{IsValid, pushed, popped, shift_slot}

-- The first `n` values of a sequence.
abbrev pub listed : ℕ → (ℕ → Item) → List Item
listed zero f = []
listed (suc n) f = f 0 ∷ listed n (λ i. f (suc i))

length-listed : (n : ℕ) (f : ℕ → Item) → length (listed n f) ≡ n
length-listed zero f = refl
length-listed (suc n) f = ap suc (length-listed n (λ i. f (suc i)))

listed-snoc : (n : ℕ) (f : ℕ → Item) → listed (suc n) f ≡ listed n f ++ f n ∷ []
listed-snoc zero f = refl
listed-snoc (suc n) f = ap (λ (t : List Item). f 0 ∷ t) (listed-snoc n (λ i. f (suc i)))

listed_cong : (n : ℕ) (f g : ℕ → Item) → ((i : ℕ) → i < n → f i ≡ g i) → listed n f ≡ listed n g
listed_cong zero f g h = refl
listed_cong (suc n) f g h =
    ap₂ ◌∷◌ (h 0 (omega arith))
      (listed_cong n (λ i. f (suc i)) (λ i. g (suc i)) (λ i k. h (suc i) (omega arith)))

abbrev pub slot : BoundedQueue → ℕ → Item
slot q i = get_or q.buffer ((q.head + i) % q.capacity) []

abbrev pub contents : BoundedQueue → List Item
contents q = listed q.size (slot q)

pub length-contents : (q : BoundedQueue) → length (contents q) ≡ q.size
length-contents q = length-listed q.size (slot q)

wrapped : (n x : ℕ) → x < n + n → ((x < n) × (x % n ≡ x)) ⊎ ((n ≤ x) × (x % n ≡ x - n))
wrapped n x h = elim (dec_lt x n) [
  | yes inside ↦ inl (inside, mod-eq_of_lt inside)
  | no over ↦ inr (
    omega arith,
    mod-eq-sub-mod {n = x} {m = n} (omega arith) ∙ mod-eq_of_lt {n = x - n} {m = n} (omega arith),
  )
]

-- Two places of the ring less than a round apart.
slots_apart : (n h i j : ℕ) → h < n → i < j → j < n → (h + j) % n ≢ (h + i) % n
slots_apart n h i j hh hi hj e =
    omega (arith, wrapped n (h + i) (omega arith), wrapped n (h + j) (omega arith), e)

pub contents-pushed :
    (item : Item) {q : BoundedQueue}
    → IsValid q
    → q.size < q.capacity
    → contents (pushed item q) ≡ contents q ++ item ∷ []
contents-pushed item {q} v room =
    ap (λ (n : ℕ). listed n (slot (pushed item q))) one_more
    ∙ listed-snoc q.size (slot (pushed item q))
    ∙ ap₂ (λ (xs : List Item) (x : Item). xs ++ x ∷ [])
        (listed_cong q.size (slot (pushed item q)) (slot q) older) newest
  where
    one_more : add_size q.size 1 ≡ suc q.size
    one_more = omega (arith, v.small)

    older : (i : ℕ) → i < q.size → slot (pushed item q) i ≡ slot q i
    older i h =
        get_or-set_ne q.buffer q.tail ((q.head + i) % q.capacity) item []
          (λ e. slots_apart q.capacity q.head i q.size v.head_in h room (sym v.tail_is ∙ e))

    newest : slot (pushed item q) q.size ≡ item
    newest =
        ap (λ (k : ℕ). get_or (set q.buffer q.tail item) k []) (sym v.tail_is)
        ∙ get_or-set_self q.buffer q.tail item [] (omega (arith, v))

pub contents-popped :
    {q : BoundedQueue}
    → IsValid q
    → 0 < q.size
    → contents q ≡ get_or q.buffer q.head [] ∷ contents (popped q)
contents-popped {q} v some_left =
    ap (λ (n : ℕ). listed n (slot q)) one_fewer
    ∙ ap₂ ◌∷◌ oldest (listed_cong (q.size - 1) (λ i. slot q (suc i)) (slot (popped q)) later)
  where
    one_fewer : q.size ≡ suc (q.size - 1)
    one_fewer = omega arith

    oldest : slot q 0 ≡ get_or q.buffer q.head []
    oldest =
        ap (λ (k : ℕ). get_or q.buffer k [])
          (ap (λ (k : ℕ). k % q.capacity) (omega arith) ∙ mod-eq_of_lt v.head_in)

    no_wrap : add_size q.head 1 ≡ q.head + 1
    no_wrap = omega (arith, v.small, v.head_in)

    later : (i : ℕ) → i < q.size - 1 → slot q (suc i) ≡ slot (popped q) i
    later i h =
        ap (λ (k : ℕ). get_or q.buffer k [])
          (sym (shift_slot q.capacity q.head i)
            ∙ ap (λ (k : ℕ). (k % q.capacity + i) % q.capacity) (sym no_wrap))
