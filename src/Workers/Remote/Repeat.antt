-- ===== src/Workers/Remote/Repeat.antt =====
-- What the requests to gateway_mqtt_command_worker leave of an answer in its cache.
use edgevision_gateway.Common.{
  ℕ, zero, suc, ◌<◌, ◌≤◌, ◌≡◌, refl, arith, true, false, not, ◌||◌, Option, none, some, List, [],
  ◌∷◌, length, leb, ◌==◌, if◌then◌else◌, if_both, ==_false,
}
use edgevision_gateway.Workers.Remote.{
  Cache, Found, miss, conflict, match_with, gateway_find_cached_command_response,
  gateway_cache_command_response, Request, command_supported, Remote, Handled, proceeds, breaks,
  publish, publish_made, refuse, answer, publish_cached, answered, executed, after_lookup, with_id,
  handle_request, Popped, popped, pop_timeout, pop_closed, pop_error, next_request,
  gateway_mqtt_command_worker,
}
use edgevision_gateway.Workers.Remote.Kept.{IsKept, other-IsKept}

-- A request id that the worker accepts, and a command that it executes.
pub record IsServed (request_id command : List ℕ) : Type 0 where
  pub some_id : 0 < length request_id
  pub short_id : length request_id < 64
  pub some_command : 0 < length command
  pub is_supported : command_supported command ≡ true

module _ {W : Type 0} (respond : List ℕ → List ℕ → List ℕ → List ℕ → Option (List ℕ))
    (execute : List ℕ → W → Option (List ℕ) × W) where
  abbrev pub request_of : List ℕ → List ℕ → Option Request
  request_of request_id command =
      some (record { request_id = some request_id; command = some command })

  pub served-lookup :
      (request_id command : List ℕ) (r : Remote W)
      → IsServed request_id command
      → handle_request respond execute (request_of request_id command) r
        ≡ after_lookup respond execute request_id command
            (gateway_find_cached_command_response r.cache request_id command)
            r
  unfolding handle_request with_id
  served-lookup request_id command r s =
      let some_id = s.some_id in
      let short_id = s.short_id in
      let some_command = s.some_command in
      rw
        (
          ==_false (length request_id) 0 (λ e. omega (arith, e, some_id)),
          long-false (length request_id) short_id,
          ==_false (length command) 0 (λ e. omega (arith, e, some_command)),
          s.is_supported,
        )
        refl
    where
      long-false : (n : ℕ) → n < 64 → leb 64 n ≡ false
      long-false n h = ground (arith, h)

  -- What a request leaves behind that was executed: the answer is cached and published.
  abbrev pub HasAnswered : List ℕ → List ℕ → Remote W → Remote W → Type 0
  HasAnswered request_id command r after =
      (payload : List ℕ) × (cache : Cache) × (gateway_cache_command_response r.cache request_id
          command payload
        ≡ some cache)
      × (after ≡ publish respond execute payload (record r { cache = cache }))

  publish_cached-HasAnswered :
      (request_id command payload : List ℕ) (r after : Remote W) (o : Option Cache)
      → gateway_cache_command_response r.cache request_id command payload ≡ o
      → publish_cached respond execute payload o r ≡ proceeds after
      → HasAnswered request_id command r after
  unfolding publish_cached
  publish_cached-HasAnswered request_id command payload r after none e h = absurd cc
  publish_cached-HasAnswered request_id command payload r after (some cache) e h =
      (payload, cache, e, cc)

  answered-HasAnswered :
      (request_id command : List ℕ) (o : Option (List ℕ)) (r after : Remote W)
      → answered respond execute request_id command o r ≡ proceeds after
      → HasAnswered request_id command r after
  unfolding answered
  answered-HasAnswered request_id command none r after h = absurd cc
  answered-HasAnswered request_id command (some payload) r after h =
      publish_cached-HasAnswered request_id command payload r after _ refl h

  pub executed-HasAnswered :
      (request_id command : List ℕ) (o : Option (List ℕ)) (r after : Remote W)
      → executed respond execute request_id command o r ≡ proceeds after
      → HasAnswered request_id command r after
  unfolding executed
  executed-HasAnswered request_id command none r after h = absurd cc
  executed-HasAnswered request_id command (some reply) r after h =
      answered-HasAnswered request_id command _ r after h

  -- The answer to a request, kept for at least `n` answers more.
  module _ (request_id command response : List ℕ) where
    abbrev KeptFor : ℕ → Cache → Type 0
    KeptFor n cache = (left : ℕ) × (n ≤ left) × IsKept request_id command response left cache

    abbrev KeptAfter : ℕ → Handled W → Type 0
    KeptAfter n (proceeds r) = KeptFor n r.cache
    KeptAfter n (breaks r) = Unit

    fewer-KeptFor : (n : ℕ) (cache : Cache) → KeptFor (suc n) cache → KeptFor n cache
    fewer-KeptFor n cache (left, h, k) = (left, omega (arith, h), k)

    refuse-KeptAfter :
        (n : ℕ) (o : Option (List ℕ)) (r : Remote W)
        → KeptFor n r.cache
        → KeptAfter n (publish_made respond execute o r)
    unfolding publish_made publish
    refuse-KeptAfter n none r k = tt
    refuse-KeptAfter n (some payload) r k = k

    publish_cached-KeptAfter :
        (n : ℕ) (other_id other_command payload : List ℕ) (r : Remote W) (o : Option Cache)
        → KeptFor (suc n) r.cache
        → gateway_find_cached_command_response r.cache other_id other_command ≡ miss
        → gateway_cache_command_response r.cache other_id other_command payload ≡ o
        → KeptAfter n (publish_cached respond execute payload o r)
    unfolding publish_cached publish
    publish_cached-KeptAfter n other_id other_command payload r none k missed e = tt
    publish_cached-KeptAfter n other_id other_command payload r (some cache) (zero, h, k) missed e =
        absurd (omega (arith, h))
    publish_cached-KeptAfter n other_id other_command payload r (some cache) (suc left, h, k) missed
          e =
        (
          left,
          omega (arith, h),
          other-IsKept r.cache cache request_id command response other_id other_command payload
              other_command left k missed e,
        )

    executed-KeptAfter :
        (n : ℕ) (other_id other_command : List ℕ) (o : Option (List ℕ)) (r : Remote W)
        → KeptFor (suc n) r.cache
        → gateway_find_cached_command_response r.cache other_id other_command ≡ miss
        → KeptAfter n (executed respond execute other_id other_command o r)
    unfolding executed answered
    executed-KeptAfter n other_id other_command none r k missed = tt
    executed-KeptAfter n other_id other_command (some reply) r k missed =
        behind (answer respond execute other_id reply)
      where
        behind :
            (o : Option (List ℕ))
            → KeptAfter n (answered respond execute other_id other_command o r)
        behind none = tt
        behind (some payload) =
            publish_cached-KeptAfter n other_id other_command payload r _ k missed refl

    lookup-KeptAfter :
        (n : ℕ) (other_id other_command : List ℕ) (f : Found) (r : Remote W)
        → KeptFor (suc n) r.cache
        → gateway_find_cached_command_response r.cache other_id other_command ≡ f
        → KeptAfter n (after_lookup respond execute other_id other_command f r)
    unfolding after_lookup refuse publish
    lookup-KeptAfter n other_id other_command miss r k e =
        executed-KeptAfter n other_id other_command _ (record r { gateway = _ }) k e
    lookup-KeptAfter n other_id other_command conflict r k e =
        refuse-KeptAfter n _ r (fewer-KeptFor n r.cache k)
    lookup-KeptAfter n other_id other_command (match_with other) r k e = fewer-KeptFor n r.cache k

    with_id-KeptAfter :
        (n : ℕ) (other_id : List ℕ) (o : Option (List ℕ)) (r : Remote W)
        → KeptFor (suc n) r.cache
        → KeptAfter n (with_id respond execute other_id o r)
    unfolding with_id refuse
    with_id-KeptAfter n other_id none r k = refuse-KeptAfter n _ r (fewer-KeptFor n r.cache k)
    with_id-KeptAfter n other_id (some other_command) r k =
        if_both (KeptAfter n) (length other_command == 0) _ _
          (λ e. refuse-KeptAfter n _ r (fewer-KeptFor n r.cache k))
          (λ e.
            if_both (KeptAfter n) (not (command_supported other_command)) _ _
              (λ f. refuse-KeptAfter n _ r (fewer-KeptFor n r.cache k))
              (λ f. lookup-KeptAfter n other_id other_command _ r k refl))

    handle-KeptAfter :
        (n : ℕ) (request : Option Request) (r : Remote W)
        → KeptFor (suc n) r.cache
        → KeptAfter n (handle_request respond execute request r)
    unfolding handle_request
    handle-KeptAfter n none r k = fewer-KeptFor n r.cache k
    handle-KeptAfter n (some request) r k = behind request.request_id
      where
        behind :
            (o : Option (List ℕ))
            → KeptAfter n (elim o [
              | none ↦ proceeds r
              | some other_id ↦
                  if (length other_id == 0) || leb 64 (length other_id)
                  then proceeds r
                  else with_id respond execute other_id request.command r
            ])
        behind none = fewer-KeptFor n r.cache k
        behind (some other_id) =
            if_both (KeptAfter n) ((length other_id == 0) || leb 64 (length other_id)) _ _
              (λ e. fewer-KeptFor n r.cache k)
              (λ e. with_id-KeptAfter n other_id request.command r k)

    abbrev pub IsKeptBehind : Option (Remote W) → Type 0
    IsKeptBehind none = Unit
    IsKeptBehind (some r) = KeptFor 0 r.cache

    pub worker-KeptFor :
        (pops : List Popped) (n : ℕ) (r : Remote W)
        → length pops ≤ n
        → KeptFor n r.cache
        → IsKeptBehind (gateway_mqtt_command_worker respond execute pops r)
    unfolding gateway_mqtt_command_worker next_request
    worker-KeptFor [] n r h (left, few, k) = (left, omega arith, k)
    worker-KeptFor (pop_closed ∷ pops) n r h k = tt
    worker-KeptFor (pop_error ∷ pops) n r h k = tt
    worker-KeptFor (pop_timeout ∷ pops) n r h k = worker-KeptFor pops n r (omega (arith, h)) k
    worker-KeptFor (popped request ∷ pops) zero r h k = absurd (omega (arith, h))
    worker-KeptFor (popped request ∷ pops) (suc n) r h k =
        behind (handle_request respond execute request r) (handle-KeptAfter n request r k)
          (λ after. worker-KeptFor pops n after (omega (arith, h)))
      where
        behind :
            (x : Handled W)
            → KeptAfter n x
            → ((after : Remote W)
                → KeptFor n after.cache
                → IsKeptBehind (gateway_mqtt_command_worker respond execute pops after))
            → IsKeptBehind
                (next_request respond execute (gateway_mqtt_command_worker respond execute pops) x)
        behind (proceeds after) kept rest = rest after kept
        behind (breaks after) kept rest = tt
