-- ===== src/Workers/Pipeline/Flow.antt =====
-- What holds between the steps of the storage worker and the MQTT worker.
use edgevision_gateway.Common.{
  ℕ, ◌≡◌, refl, ap, ◌∙◌, Bool, true, false, Option, none, some, List, [], ◌∷◌, ◌++◌, append_assoc,
}
use edgevision_gateway.Storage.Tables.{Database}
use edgevision_gateway.Storage.Tables.Pending.{queue_of}
use edgevision_gateway.Storage.Outbox.{OutboxItem}
use edgevision_gateway.Storage.Outbox.Reads.{IsValid}
use edgevision_gateway.Workers.Pipeline.{
  PublishResult, publish_ok, publish_error, Report, Publisher, fetching, done, publishing,
  reporting,
}
use edgevision_gateway.Workers.Pipeline.Moves.{Attempt, Pipeline}

-- The attempts to publish while the entries of `all` go out in turn, of which those of `sent` are
-- marked: every attempt is one of the entry behind those; and an entry is marked behind an attempt
-- of it that succeeded, the last one.
pub data Delivered : List ℕ → List ℕ → List Attempt → Type 0 where
  nothing : {all : List ℕ} → Delivered all [] []
  tried :
      {all sent : List ℕ} {attempts : List Attempt} (id : ℕ) (is_ok : Bool) (later : List ℕ)
      → Delivered all sent attempts
      → all ≡ sent ++ id ∷ later
      → Delivered all sent (attempts ++ record { id = id; is_ok = is_ok } ∷ [])
  marked :
      {all sent : List ℕ} {attempts : List Attempt} (id : ℕ) (later : List ℕ)
      (before : List Attempt)
      → Delivered all sent attempts
      → attempts ≡ before ++ record { id = id; is_ok = true } ∷ []
      → all ≡ sent ++ id ∷ later
      → Delivered all (sent ++ id ∷ []) attempts

-- More entries behind those that are there.
pub Delivered-grow :
    {all sent : List ℕ} {attempts : List Attempt} (id : ℕ)
    → Delivered all sent attempts
    → Delivered (all ++ id ∷ []) sent attempts
Delivered-grow new nothing = nothing
Delivered-grow new (tried {all} {sent} id is_ok later d e) =
    tried id is_ok (later ++ new ∷ []) (Delivered-grow new d)
      (ap (λ l. l ++ new ∷ []) e ∙ append_assoc sent (id ∷ later) (new ∷ []))
Delivered-grow new (marked {all} {sent} id later before d last e) =
    marked id (later ++ new ∷ []) before (Delivered-grow new d) last
      (ap (λ l. l ++ new ∷ []) e ∙ append_assoc sent (id ∷ later) (new ∷ []))

-- The entry at the head of the queue of pending ones.
abbrev pub IsNext : ℕ → List ℕ → Type 0
IsNext id queue = (later : List ℕ) × (queue ≡ id ∷ later)

-- A report of success is one on the last attempt.
abbrev pub IsBacked : PublishResult → ℕ → List Attempt → Type 0
IsBacked publish_ok id attempts =
    (before : List Attempt) × (attempts ≡ before ++ record { id = id; is_ok = true } ∷ [])
IsBacked (publish_error n) id attempts = Unit

abbrev pub IsReport : List ℕ → List Attempt → Report → Type 0
IsReport queue attempts r =
    IsNext r.outbox_id queue × IsBacked r.publish_result r.outbox_id attempts

-- At most one job or report is under way, for the entry at the head of the queue, and
-- `delivery_inflight` says so, as long as the MQTT worker runs.
abbrev pub Flow :
    Bool → List ℕ → List Attempt → Publisher → Option OutboxItem → Option Report → Type 0
Flow inflight queue attempts fetching none none = Unit
Flow inflight queue attempts fetching (some item) none = (inflight ≡ true) × IsNext item.id queue
Flow inflight queue attempts fetching none (some r) = (inflight ≡ true) × IsReport queue attempts r
Flow inflight queue attempts fetching (some item) (some r) = ⊥
Flow inflight queue attempts (publishing item) none none = (inflight ≡ true) × IsNext item.id queue
Flow inflight queue attempts (publishing item) none (some r) = ⊥
Flow inflight queue attempts (publishing item) (some job) r = ⊥
Flow inflight queue attempts (reporting report) none none =
    (inflight ≡ true) × IsReport queue attempts report
Flow inflight queue attempts (reporting report) none (some r) = ⊥
Flow inflight queue attempts (reporting report) (some job) r = ⊥
Flow inflight queue attempts done job none = Unit
Flow inflight queue attempts done job (some r) = IsReport queue attempts r

-- result_queue is closed only behind the end of the MQTT worker.
abbrev pub OpensFor : Publisher → Bool → Type 0
OpensFor done is_closed = Unit
OpensFor fetching is_closed = is_closed ≡ false
OpensFor (publishing item) is_closed = is_closed ≡ false
OpensFor (reporting r) is_closed = is_closed ≡ false

pub record IsFlowing (start : Database) (p : Pipeline) : Type 0 where
  pub valid : IsValid p.storage.db
  pub in_order : queue_of start.outbox ++ p.saved ≡ p.sent ++ queue_of p.storage.db.outbox
  pub flow :
      Flow p.storage.delivery_inflight
        (queue_of p.storage.db.outbox)
        p.attempts
        p.publisher
        p.delivery.item
        p.results.item
  pub opened : OpensFor p.publisher p.results.is_closed
  pub delivered : Delivered (queue_of start.outbox ++ p.saved) p.sent p.attempts

pub grow-IsNext : (id new : ℕ) (queue : List ℕ) → IsNext id queue → IsNext id (queue ++ new ∷ [])
grow-IsNext id new queue (later, e) = (later ++ new ∷ [], ap (λ l. l ++ new ∷ []) e)

-- A new entry at the end of the queue.
pub grow-Flow :
    (inflight : Bool) (queue : List ℕ) (attempts : List Attempt) (publisher : Publisher)
    (job : Option OutboxItem) (r : Option Report) (new : ℕ)
    → Flow inflight queue attempts publisher job r
    → Flow inflight (queue ++ new ∷ []) attempts publisher job r
grow-Flow inflight queue attempts fetching none none new h = tt
grow-Flow inflight queue attempts fetching (some item) none new (i, h) =
    (i, grow-IsNext _ new queue h)
grow-Flow inflight queue attempts fetching none (some r) new (i, (h, b)) =
    (i, (grow-IsNext _ new queue h, b))
grow-Flow inflight queue attempts fetching (some item) (some r) new h = elim h [ ]
grow-Flow inflight queue attempts (publishing item) none none new (i, h) =
    (i, grow-IsNext _ new queue h)
grow-Flow inflight queue attempts (publishing item) none (some r) new h = elim h [ ]
grow-Flow inflight queue attempts (publishing item) (some job) r new h = elim h [ ]
grow-Flow inflight queue attempts (reporting report) none none new (i, (h, b)) =
    (i, (grow-IsNext _ new queue h, b))
grow-Flow inflight queue attempts (reporting report) none (some r) new h = elim h [ ]
grow-Flow inflight queue attempts (reporting report) (some job) r new h = elim h [ ]
grow-Flow inflight queue attempts done job none new h = tt
grow-Flow inflight queue attempts done job (some r) new (h, b) = (grow-IsNext _ new queue h, b)

-- Without a report under way.
pub idle-Flow :
    (inflight : Bool) (queue : List ℕ) (attempts : List Attempt) (publisher : Publisher)
    (job : Option OutboxItem) (before : Bool) (r : Report) (queue_before : List ℕ)
    → Flow before queue_before attempts publisher job (some r)
    → Flow inflight queue attempts publisher job none × IsReport queue_before attempts r
idle-Flow inflight queue attempts fetching none before r queue_before (i, h) = (tt, h)
idle-Flow inflight queue attempts fetching (some job) before r queue_before h = elim h [ ]
idle-Flow inflight queue attempts (publishing item) none before r queue_before h = elim h [ ]
idle-Flow inflight queue attempts (publishing item) (some job) before r queue_before h = elim h [ ]
idle-Flow inflight queue attempts (reporting report) none before r queue_before h = elim h [ ]
idle-Flow inflight queue attempts (reporting report) (some job) before r queue_before h = elim h [ ]
idle-Flow inflight queue attempts done job before r queue_before h = (tt, h)

-- Behind the end of the MQTT worker, or while nothing is under way, a new job may be scheduled.
pub offer-Flow :
    (queue : List ℕ) (attempts : List Attempt) (publisher : Publisher) (item : OutboxItem)
    (r : Option Report)
    → IsNext item.id queue
    → Flow false queue attempts publisher none r
    → Flow true queue attempts publisher (some item) r
offer-Flow queue attempts fetching item none next h = (refl, next)
offer-Flow queue attempts fetching item (some r) next (i, h) = absurd cc
offer-Flow queue attempts (publishing other) item none next (i, h) = absurd cc
offer-Flow queue attempts (publishing other) item (some r) next h = elim h [ ]
offer-Flow queue attempts (reporting report) item none next (i, h) = absurd cc
offer-Flow queue attempts (reporting report) item (some r) next h = elim h [ ]
offer-Flow queue attempts done item none next h = tt
offer-Flow queue attempts done item (some r) next h = h
