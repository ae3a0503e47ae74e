-- ===== src/Workers/Remote/Kept.antt =====
-- What the cache of answers finds, and for how long.
use edgevision_gateway.Common.Text.{text_eq, text_eq_lem, text_eq_refl}
use edgevision_gateway.Common.{
  ℕ, zero, suc, ◌+◌, ◌%◌, ◌<◌, ◌≡◌, ◌≢◌, refl, sym, ap, ◌∙◌, arith, Bool, true, false, ◌&&◌, ◌||◌,
  Option, some, List, [], ◌∷◌, length, set, All, leb, ◌==◌, if◌then◌else◌, if_both, length-set,
  subst, Bool-cases, inl, inr,
}
use edgevision_gateway.Workers.Remote.{
  Entry, Cache, miss, conflict, match_with, find_entry, gateway_find_cached_command_response,
  gateway_cache_command_response,
}

module _ (request_id command response : List ℕ) where
  abbrev entry_of : Entry
  entry_of = record {
    occupied = true;
    request_id = request_id;
    command = command;
    response = response;
  }

  -- An entry that the request id does not meet.
  abbrev pub IsOther : Entry → Type 0
  IsOther entry = (entry.occupied && text_eq entry.request_id request_id) ≡ false

  -- The list holds the answer in the slot `j`, and there alone.
  abbrev HoldsAt : ℕ → List Entry → Type 0
  HoldsAt j [] = ⊥
  HoldsAt zero (entry ∷ entries) = (entry ≡ entry_of) × All IsOther entries
  HoldsAt (suc j) (entry ∷ entries) = IsOther entry × HoldsAt j entries

  miss-IsOther :
      (entries : List Entry) (asked : List ℕ)
      → find_entry entries request_id asked ≡ miss
      → All IsOther entries
  unfolding find_entry
  miss-IsOther [] asked h = tt
  miss-IsOther (entry ∷ entries) asked h =
      (ground (arith, h), miss-IsOther entries asked (ground (arith, h)))

  set-HoldsAt :
      (entries : List Entry) (j : ℕ)
      → All IsOther entries
      → j < length entries
      → HoldsAt j (set entries j entry_of)
  set-HoldsAt [] j h short = absurd (omega (arith, short))
  set-HoldsAt (entry ∷ entries) zero (other, h) short = (refl, h)
  set-HoldsAt (entry ∷ entries) (suc j) (other, h) short =
      (other, set-HoldsAt entries j h (omega (arith, short)))

  set-IsOther :
      (entries : List Entry) (n : ℕ) (v : Entry)
      → IsOther v
      → All IsOther entries
      → All IsOther (set entries n v)
  set-IsOther [] n v new h = tt
  set-IsOther (entry ∷ entries) zero v new (other, h) = (new, h)
  set-IsOther (entry ∷ entries) (suc n) v new (other, h) = (other, set-IsOther entries n v new h)

  -- A write to another slot, for another request id.
  keeps-HoldsAt :
      (entries : List Entry) (j n : ℕ) (v : Entry)
      → IsOther v
      → n ≢ j
      → HoldsAt j entries
      → HoldsAt j (set entries n v)
  keeps-HoldsAt [] j n v new apart h = elim h [ ]
  keeps-HoldsAt (entry ∷ entries) zero zero v new apart h = absurd (apart refl)
  keeps-HoldsAt (entry ∷ entries) zero (suc n) v new apart (is, h) =
      (is, set-IsOther entries n v new h)
  keeps-HoldsAt (entry ∷ entries) (suc j) zero v new apart (other, h) = (new, h)
  keeps-HoldsAt (entry ∷ entries) (suc j) (suc n) v new apart (other, h) =
      (other, keeps-HoldsAt entries j n v new (λ e. apart (ap suc e)) h)

  find-HoldsAt :
      (entries : List Entry) (j : ℕ) (asked : List ℕ)
      → HoldsAt j entries
      → find_entry entries request_id asked
        ≡ (if text_eq command asked then match_with response else conflict)
  unfolding find_entry
  find-HoldsAt [] j asked h = elim h [ ]
  find-HoldsAt (entry ∷ entries) zero asked (is, h) = rw (is, text_eq_refl request_id) refl
  find-HoldsAt (entry ∷ entries) (suc j) asked (other, h) =
      rw other (find-HoldsAt entries j asked h)

  -- The answer stays for `left` answers more.
  pub record IsKept (left : ℕ) (cache : Cache) : Type 0 where
    pub slot : ℕ
    pub here : HoldsAt slot cache.entries
    pub size : length cache.entries ≡ 16
    pub in_ring : cache.next < 16
    pub due : (cache.next + left) % 16 ≡ slot
    pub short : left < 16

  pub find-IsKept :
      (left : ℕ) (cache : Cache) (asked : List ℕ)
      → IsKept left cache
      → gateway_find_cached_command_response cache request_id asked
        ≡ (if text_eq command asked then match_with response else conflict)
  unfolding gateway_find_cached_command_response
  find-IsKept left cache asked k = find-HoldsAt cache.entries k.slot asked k.here

-- A cache as the worker makes it.
pub record IsRing (cache : Cache) : Type 0 where
  pub size : length cache.entries ≡ 16
  pub in_ring : cache.next < 16

-- What a write to the cache does.
cache_response_lem :
    (cache after : Cache) (request_id command response : List ℕ)
    → gateway_cache_command_response cache request_id command response ≡ some after
    → (after.entries ≡ set cache.entries cache.next (entry_of request_id command response))
      × (after.next ≡ (cache.next + 1) % 16)
unfolding gateway_cache_command_response
cache_response_lem cache after request_id command response =
    if_both Writes ((length request_id == 0) || (length response == 0) || (length command == 0)) _ _
      (λ h e. absurd cc)
      (λ h.
        if_both Writes
          (leb 64 (length request_id) || leb 256 (length response) || leb 1024 (length command)) _ _
          (λ k e. absurd cc)
          (λ k e.
            let is : record {
              entries = set cache.entries cache.next (entry_of request_id command response);
              next = (cache.next + 1) % 16;
            }
                ≡ after =
              cc in
            (ap (λ (c : Cache). c.entries) (sym is), ap (λ (c : Cache). c.next) (sym is))))
  where
    Writes : Option Cache → Type 0
    Writes o =
        o ≡ some after
        → (after.entries ≡ set cache.entries cache.next (entry_of request_id command response))
          × (after.next ≡ (cache.next + 1) % 16)

-- What is cached where it was missed stays for 15 answers more.
pub cached-IsKept :
    (cache after : Cache) (request_id command response asked : List ℕ)
    → IsRing cache
    → gateway_find_cached_command_response cache request_id asked ≡ miss
    → gateway_cache_command_response cache request_id command response ≡ some after
    → IsKept request_id command response 15 after
unfolding gateway_find_cached_command_response gateway_cache_command_response
cached-IsKept cache after request_id command response asked ring missed done =
    let (entries, next) = cache_response_lem cache after request_id command response done in
    let free = miss-IsOther request_id command response cache.entries asked missed in
    record {
      slot = cache.next;
      here = subst (HoldsAt request_id command response cache.next) (sym entries) (
          set-HoldsAt request_id command response cache.entries cache.next free
            (omega (arith, ring.size, ring.in_ring)));
      size = ap length entries ∙ length-set cache.entries cache.next _ ∙ ring.size;
      in_ring = omega (arith, next);
      due = omega (arith, next, ring.in_ring);
      short = omega arith;
    }

-- A request id that is missed is not the one of an answer that is kept.
miss-other :
    (cache : Cache) (request_id command response other_id asked : List ℕ) (left : ℕ)
    → IsKept request_id command response left cache
    → gateway_find_cached_command_response cache other_id asked ≡ miss
    → text_eq other_id request_id ≡ false
miss-other cache request_id command response other_id asked left k missed =
    elim (Bool-cases (text_eq other_id request_id)) [
      | inr e ↦ e
      | inl e ↦
          let same = text_eq_lem other_id request_id e in
          absurd (
            found_or_not (text_eq command asked) (
              sym (find-IsKept request_id command response left cache asked k)
              ∙ subst (λ i. gateway_find_cached_command_response cache i asked ≡ miss) same missed))
    ]
  where
    found_or_not : (b : Bool) → (if b then match_with response else conflict) ≢ miss
    found_or_not true e = absurd cc
    found_or_not false e = absurd cc

-- Another answer that is cached takes one of them.
pub other-IsKept :
    (cache after : Cache)
    (request_id command response other_id other_command other_response asked : List ℕ) (left : ℕ)
    → IsKept request_id command response (suc left) cache
    → gateway_find_cached_command_response cache other_id asked ≡ miss
    → gateway_cache_command_response cache other_id other_command other_response ≡ some after
    → IsKept request_id command response left after
unfolding gateway_find_cached_command_response gateway_cache_command_response
other-IsKept cache after request_id command response other_id other_command other_response asked
      left k missed done =
    let (entries, next) =
      cache_response_lem cache after other_id other_command other_response done in
    let spare = k.due in
    let inside = k.in_ring in
    let few = k.short in
    let apart : cache.next ≢ k.slot = λ e. absurd (omega (arith, e, spare, inside, few)) in
    record {
      slot = k.slot;
      here = subst (HoldsAt request_id command response k.slot) (sym entries) (
          keeps-HoldsAt request_id command response cache.entries k.slot cache.next _
            (miss-other cache request_id command response other_id asked (suc left) k missed) apart
            k.here);
      size = ap length entries ∙ length-set cache.entries cache.next _ ∙ k.size;
      in_ring = omega (arith, next);
      due = omega (arith, next, spare, inside, few);
      short = omega (arith, few);
    }
