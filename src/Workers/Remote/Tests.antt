-- ===== src/Workers/Remote/Tests.antt =====
-- A gateway that counts the commands it executes.
use edgevision_gateway.Common.Text.{text_eq}
use edgevision_gateway.Common.{
  ℕ, ◌+◌, ◌≡◌, refl, arith, true, false, Option, none, some, List, [], ◌∷◌, ◌++◌, set,
}
use edgevision_gateway.Gateway.Interval.{starts_with}
use edgevision_gateway.Workers.Text.{status_text, get_config_text, id_conflict}
use edgevision_gateway.Workers.Remote.{
  Entry, miss, find_entry, gateway_find_cached_command_response, gateway_cache_command_response,
  command_supported, Remote, proceeds, publish, refuse, answer, publish_cached, answered, executed,
  after_lookup, with_id, handle_request, popped, pop_timeout, next_request,
  gateway_mqtt_command_worker,
}
use edgevision_gateway.Workers.Remote.Kept.{IsRing}
use edgevision_gateway.Workers.Remote.Repeat.{IsServed, request_of}
use edgevision_gateway.Workers.Remote.Once.{once-answers}

abbrev respond : List ℕ → List ℕ → List ℕ → List ℕ → Option (List ℕ)
respond request_id status name value = some (request_id ++ 58 ∷ value)

abbrev execute : List ℕ → ℕ → Option (List ℕ) × ℕ
execute command count = (some ((48 + count) ∷ []), count + 1)

abbrev free : Entry
free = record { occupied = false; request_id = []; command = []; response = [] }

abbrev new_worker : Remote ℕ
new_worker = record {
  cache = record {
    entries =
        free ∷ free ∷ free ∷ free ∷ free ∷ free ∷ free ∷ free ∷ free ∷ free ∷ free ∷ free ∷ free
        ∷ free ∷ free ∷ free ∷ [];
    next = 0;
  };
  published = [];
  gateway = 0;
}

abbrev id : List ℕ
id = 65 ∷ []

-- The worker behind the request.
abbrev once_done : Remote ℕ
once_done = record {
  cache = record {
    entries = set new_worker.cache.entries 0 (record {
      occupied = true;
      request_id = id;
      command = status_text;
      response = 65 ∷ 58 ∷ 48 ∷ [];
    });
    next = 1;
  };
  published = (65 ∷ 58 ∷ 48 ∷ []) ∷ [];
  gateway = 1;
}

first :
    handle_request respond execute (request_of respond execute id status_text) new_worker
    ≡ proceeds once_done
unfolding handle_request with_id command_supported text_eq starts_with after_lookup
    gateway_find_cached_command_response find_entry executed answer answered
    gateway_cache_command_response publish_cached publish
first = refl

idle :
    gateway_mqtt_command_worker respond execute (popped none ∷ pop_timeout ∷ []) once_done
    ≡ some once_done
unfolding gateway_mqtt_command_worker next_request handle_request
idle = refl

ring : IsRing new_worker.cache
ring = record { size = refl; in_ring = omega arith }

status-IsServed : IsServed id status_text
unfolding command_supported text_eq
status-IsServed = record {
  some_id = omega arith;
  short_id = omega arith;
  some_command = omega arith;
  is_supported = refl;
}

get_config-IsServed : IsServed id get_config_text
unfolding command_supported text_eq starts_with
get_config-IsServed = record {
  some_id = omega arith;
  short_id = omega arith;
  some_command = omega arith;
  is_supported = refl;
}

apart : text_eq status_text get_config_text ≡ false
unfolding text_eq
apart = refl

missed : gateway_find_cached_command_response new_worker.cache id status_text ≡ miss
unfolding gateway_find_cached_command_response find_entry
missed = refl

once-answers_example :
    (response : List ℕ) × (once_done.published ≡ new_worker.published ++ response ∷ [])
    × (handle_request respond execute (request_of respond execute id status_text) once_done
        ≡ proceeds (publish respond execute response once_done))
    × (handle_request respond execute (request_of respond execute id get_config_text) once_done
        ≡ refuse respond execute id id_conflict once_done)
once-answers_example =
    once-answers respond execute id status_text get_config_text new_worker once_done once_done
      (popped none ∷ pop_timeout ∷ []) ring status-IsServed get_config-IsServed apart missed first
      idle (omega arith)
