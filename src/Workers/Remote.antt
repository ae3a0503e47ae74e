-- ===== src/Workers/Remote.antt =====
-- The remote commands of core/gateway_workers.c: the cache of answers by request id, and
-- gateway_mqtt_command_worker. cJSON, the publisher and the execution of a command are parameters.
pub mod Kept
pub mod Repeat
pub mod Once
mod Tests
use edgevision_gateway.Common.Text.{text_eq}
use edgevision_gateway.Common.{
  ℕ, ◌+◌, ◌%◌, Bool, true, false, not, ◌&&◌, ◌||◌, Option, none, some, List, [], ◌∷◌, ◌++◌, length,
  set, get_or, drop, ltb, leb, ◌==◌, if◌then◌else◌,
}
use edgevision_gateway.Gateway.Interval.{starts_with}
use edgevision_gateway.Workers.Text.{
  status_text, set_interval_text, set_interval_prefix, get_config_text, pause_text, resume_text,
  stats_text, version_text, ok_word, error_word, result_word, error_prefix, invalid_command,
  unsupported_command, id_conflict,
}

-- gateway_command_dedup_entry_t.
pub record Entry : Type 0 where
  pub occupied : Bool
  pub request_id : List ℕ
  pub command : List ℕ
  pub response : List ℕ

-- command_dedup_entries and command_dedup_next.
pub record Cache : Type 0 where
  pub entries : List Entry
  pub next : ℕ

-- gateway_command_dedup_result_t for pointers that are there, with `response_out`.
pub data Found : Type 0 where
  miss conflict : Found
  match_with : List ℕ → Found

-- The loop over the entries.
pub find_entry : List Entry → List ℕ → List ℕ → Found
find_entry [] request_id command = miss
find_entry (entry ∷ entries) request_id command =
    let rest = find_entry entries request_id command in
    if entry.occupied && text_eq entry.request_id request_id
    then if text_eq entry.command command then match_with entry.response else conflict
    else rest

pub gateway_find_cached_command_response : Cache → List ℕ → List ℕ → Found
gateway_find_cached_command_response cache request_id command =
    find_entry cache.entries request_id command

-- The cache if the call returns true.
pub gateway_cache_command_response : Cache → List ℕ → List ℕ → List ℕ → Option Cache
gateway_cache_command_response cache request_id command response =
    if (length request_id == 0) || (length response == 0) || (length command == 0)
    then none
    else if leb 64 (length request_id) || leb 256 (length response) || leb 1024 (length command)
    then none
    else some (record {
      entries = set cache.entries cache.next (record {
        occupied = true;
        request_id = request_id;
        command = command;
        response = response;
      });
      next = (cache.next + 1) % 16;
    })

-- What the worker reads of a payload that parses: the two members, where they are strings.
pub record Request : Type 0 where
  pub request_id : Option (List ℕ)
  pub command : Option (List ℕ)

pub command_supported : List ℕ → Bool
command_supported command =
    text_eq command status_text
    || text_eq command set_interval_text
    || starts_with set_interval_prefix command
    || text_eq command get_config_text
    || text_eq command pause_text
    || text_eq command resume_text
    || text_eq command stats_text
    || text_eq command version_text

-- The worker's state: the cache, what it has passed to gateway_publish_command_response, whose
-- result it only prints, and the rest of the gateway, which a command acts on.
pub record Remote (W : Type 0) : Type 0 where
  pub cache : Cache
  pub published : List (List ℕ)
  pub gateway : W

-- Behind a request: the worker goes on, or breaks out of its loop.
pub data Handled (W : Type 0) : Type 0 where
  proceeds breaks : Remote W → Handled W

-- bq_pop: a request, BQ_TIMEOUT, BQ_CLOSED, or an error.
pub data Popped : Type 0 where
  popped : Option Request → Popped
  pop_timeout pop_closed pop_error : Popped

-- `respond` is gateway_create_command_response: the payload that cJSON makes of the request id, the status, and
-- the name and value of the detail, if it can. `execute` is gateway_execute_command with the reply, if it
-- returns 0.
module _ {W : Type 0} (respond : List ℕ → List ℕ → List ℕ → List ℕ → Option (List ℕ))
    (execute : List ℕ → W → Option (List ℕ) × W) where
  pub publish : List ℕ → Remote W → Remote W
  publish payload r = record r { published = r.published ++ payload ∷ [] }

  -- An answer that is not cached.
  pub publish_made : Option (List ℕ) → Remote W → Handled W
  publish_made none r = breaks r
  publish_made (some payload) r = proceeds (publish payload r)

  pub refuse : List ℕ → List ℕ → Remote W → Handled W
  refuse request_id reason r = publish_made (respond request_id error_word error_word reason) r

  -- The answer to a reply.
  pub answer : List ℕ → List ℕ → Option (List ℕ)
  answer request_id reply =
      if starts_with error_prefix reply
      then respond request_id error_word error_word (drop 6 reply)
      else respond request_id ok_word result_word reply

  pub publish_cached : List ℕ → Option Cache → Remote W → Handled W
  publish_cached payload none r = breaks r
  publish_cached payload (some cache) r = proceeds (publish payload (record r { cache = cache }))

  pub answered : List ℕ → List ℕ → Option (List ℕ) → Remote W → Handled W
  answered request_id command none r = breaks r
  answered request_id command (some payload) r =
      publish_cached payload (gateway_cache_command_response r.cache request_id command payload) r

  -- Behind gateway_execute_command.
  pub executed : List ℕ → List ℕ → Option (List ℕ) → Remote W → Handled W
  executed request_id command none r = breaks r
  executed request_id command (some reply) r =
      answered request_id command (answer request_id reply) r

  -- Behind the look into the cache.
  pub after_lookup : List ℕ → List ℕ → Found → Remote W → Handled W
  after_lookup request_id command (match_with response) r = proceeds (publish response r)
  after_lookup request_id command conflict r = refuse request_id id_conflict r
  after_lookup request_id command miss r =
      executed request_id command (execute command r.gateway).0
        (record r { gateway = (execute command r.gateway).1 })

  -- With a request id that is accepted.
  pub with_id : List ℕ → Option (List ℕ) → Remote W → Handled W
  with_id request_id none r = refuse request_id invalid_command r
  with_id request_id (some command) r =
      if length command == 0
      then refuse request_id invalid_command r
      else if not (command_supported command)
      then refuse request_id unsupported_command r
      else after_lookup request_id command
          (gateway_find_cached_command_response r.cache request_id command) r

  -- The body of the loop behind bq_pop; `none` is a payload that cJSON does not parse.
  pub handle_request : Option Request → Remote W → Handled W
  handle_request none r = proceeds r
  handle_request (some request) r = elim request.request_id [
    | none ↦ proceeds r
    | some request_id ↦
        if (length request_id == 0) || leb 64 (length request_id)
        then proceeds r
        else with_id request_id request.command r
  ]

  pub next_request : (Remote W → Option (Remote W)) → Handled W → Option (Remote W)
  next_request again (proceeds r) = again r
  next_request again (breaks r) = none

  -- The loop, on what the queue brings: the state where it goes on at the end of the list.
  pub gateway_mqtt_command_worker : List Popped → Remote W → Option (Remote W)
  gateway_mqtt_command_worker [] r = some r
  gateway_mqtt_command_worker (popped request ∷ pops) r =
      next_request (gateway_mqtt_command_worker pops) (handle_request request r)
  gateway_mqtt_command_worker (pop_timeout ∷ pops) r = gateway_mqtt_command_worker pops r
  gateway_mqtt_command_worker (pop_closed ∷ pops) r = none
  gateway_mqtt_command_worker (pop_error ∷ pops) r = none
