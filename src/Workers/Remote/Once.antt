-- ===== src/Workers/Remote/Once.antt =====
-- A remote command that comes again is not executed again.
use edgevision_gateway.Common.Text.{text_eq, text_eq_refl}
use edgevision_gateway.Common.{
  ℕ, ◌≤◌, ◌≡◌, refl, sym, ap, subst, ◌∙◌, arith, false, Option, some, List, [], ◌∷◌, ◌++◌, length,
}
use edgevision_gateway.Workers.Text.{id_conflict}
use edgevision_gateway.Workers.Remote.{
  miss, gateway_find_cached_command_response, Remote, proceeds, publish, refuse, after_lookup,
  handle_request, Popped, gateway_mqtt_command_worker,
}
use edgevision_gateway.Workers.Remote.Kept.{IsKept, find-IsKept, IsRing, cached-IsKept}
use edgevision_gateway.Workers.Remote.Repeat.{
  IsServed, request_of, served-lookup, HasAnswered, executed-HasAnswered, IsKeptBehind,
  worker-KeptFor,
}

module _ {W : Type 0} (respond : List ℕ → List ℕ → List ℕ → List ℕ → Option (List ℕ))
    (execute : List ℕ → W → Option (List ℕ) × W) where
  -- The answer to a request that is handled for the first time.
  first-HasAnswered :
      (request_id command : List ℕ) (before after : Remote W)
      → IsServed request_id command
      → gateway_find_cached_command_response before.cache request_id command ≡ miss
      → handle_request respond execute (request_of respond execute request_id command) before
        ≡ proceeds after
      → HasAnswered respond execute request_id command
          (record before { gateway = (execute command before.gateway).1 })
          after
  unfolding after_lookup
  first-HasAnswered request_id command before after s missed h =
      executed-HasAnswered respond execute request_id command _ _ after (
        subst (λ f. after_lookup respond execute request_id command f before ≡ proceeds after)
          missed (sym (served-lookup respond execute request_id command before s) ∙ h))

  -- The same request while its answer is kept, and one that bears its id for another command.
  kept-answers :
      (request_id command other response : List ℕ) (left : ℕ) (r : Remote W)
      → IsServed request_id command
      → IsServed request_id other
      → text_eq command other ≡ false
      → IsKept request_id command response left r.cache
      → (handle_request respond execute (request_of respond execute request_id command) r
          ≡ proceeds (publish respond execute response r))
        × (handle_request respond execute (request_of respond execute request_id other) r
            ≡ refuse respond execute request_id id_conflict r)
  unfolding after_lookup
  kept-answers request_id command other response left r s t apart k = (
    served-lookup respond execute request_id command r s
        ∙ rw (find-IsKept request_id command response left r.cache command k, text_eq_refl command)
            refl,
    served-lookup respond execute request_id other r t
        ∙ rw (find-IsKept request_id command response left r.cache other k, apart) refl,
  )

-- A remote command whose id is new is executed and answered; then up to 15 requests of any kind come
-- in, with time-outs of the queue among them counted, and the worker still runs. If the same request
-- comes again now, the very same answer is published, and nothing else changes: the command is not
-- executed again. If another command comes with that id, it is refused as a conflict and not executed.
pub once-answers :
    {W : Type 0} (respond : List ℕ → List ℕ → List ℕ → List ℕ → Option (List ℕ))
    (execute : List ℕ → W → Option (List ℕ) × W) (request_id command other : List ℕ)
    (before after later : Remote W) (pops : List Popped)
    → IsRing before.cache
    → IsServed request_id command
    → IsServed request_id other
    → text_eq command other ≡ false
    → gateway_find_cached_command_response before.cache request_id command ≡ miss
    → handle_request respond execute (request_of respond execute request_id command) before
      ≡ proceeds after
    → gateway_mqtt_command_worker respond execute pops after ≡ some later
    → length pops ≤ 15
    → (response : List ℕ) × (after.published ≡ before.published ++ response ∷ [])
      × (handle_request respond execute (request_of respond execute request_id command) later
          ≡ proceeds (publish respond execute response later))
      × (handle_request respond execute (request_of respond execute request_id other) later
          ≡ refuse respond execute request_id id_conflict later)
unfolding publish
once-answers {W} respond execute request_id command other before after later pops ring s t apart
      missed first between few =
    let (response, cache, made, is) =
      first-HasAnswered respond execute request_id command before after s missed first in
    let kept =
      cached-IsKept before.cache cache request_id command response command ring missed made in
    let start : IsKept request_id command response 15 after.cache =
      subst (λ (r : Remote W). IsKept request_id command response 15 r.cache) (sym is) kept in
    let (left, enough, still) =
      subst (IsKeptBehind respond execute request_id command response) between (
        worker-KeptFor respond execute request_id command response pops 15 after few
          (15, omega arith, start)) in
    let (same, clash) =
      kept-answers respond execute request_id command other response left later s t apart still in
    (response, ap (λ (r : Remote W). r.published) is, same, clash)
