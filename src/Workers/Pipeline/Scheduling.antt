-- ===== src/Workers/Pipeline/Scheduling.antt =====
-- gateway_storage_worker schedules the delivery of the earliest pending entry.
use edgevision_gateway.Common.{
  ℕ, ◌≡◌, refl, subst, arith, Bool, true, false, ◌||◌, Option, none, some, ltb, if_both,
  if◌then◌else◌,
}
use edgevision_gateway.Domain.Measurement.{Measurement}
use edgevision_gateway.Storage.Result.{
  StoreResult, ok, empty, not_found, invalid_argument, busy, db_error, schema_error,
  serialization_error, no_memory, Query,
}
use edgevision_gateway.Storage.Tables.{Database}
use edgevision_gateway.Storage.Tables.Pending.{queue_of}
use edgevision_gateway.Storage.Outbox.{
  Json, OutboxItem, CopyAnswers, outbox_store_read_earliest_pending,
}
use edgevision_gateway.Storage.Outbox.Reads.{IsHead, read-IsHead}
use edgevision_gateway.Workers.Pipeline.{
  Slot, put_ok, put_timeout, put_closed, put_one, at_schedule, ended, Storage, scheduled, offered,
  gateway_storage_schedule_delivery, loop_test, after_schedule, storage_schedule,
}
use edgevision_gateway.Workers.Pipeline.Moves.{Pipeline, schedule, is_at, schedule_move, move}
use edgevision_gateway.Workers.Pipeline.Flow.{IsNext, Flow, offer-Flow, IsFlowing}

module _ (start : Database) (p : Pipeline) (h : IsFlowing start p) where
  abbrev IsKeeping : Storage × Slot OutboxItem → Type 0
  IsKeeping x = IsFlowing start (schedule_move x p)

  -- With nothing under way.
  module _ (idle : p.storage.delivery_inflight ≡ false) where
    abbrev Behind : Option Bool × Slot OutboxItem → Type 0
    Behind x = IsKeeping (after_schedule x p.storage)

    no_job-Behind : Behind (some false, p.delivery)
    unfolding schedule_move after_schedule loop_test
    no_job-Behind = record {
      valid = h.valid;
      in_order = h.in_order;
      flow = h.flow;
      opened = h.opened;
      delivered = h.delivered;
    }

    error-Behind : Behind (none, p.delivery)
    unfolding schedule_move after_schedule
    error-Behind = record {
      valid = h.valid;
      in_order = h.in_order;
      flow = h.flow;
      opened = h.opened;
      delivered = h.delivered;
    }

    put-Behind :
        (fails : Bool) (item : OutboxItem)
        → IsNext item.id (queue_of p.storage.db.outbox)
        → Behind (scheduled (put_one fails item p.delivery))
    unfolding put_one scheduled schedule_move after_schedule loop_test
    put-Behind true item next = error-Behind
    put-Behind false item next =
        if_both (λ x. Behind (scheduled x)) p.delivery.is_closed (put_closed, p.delivery) _
          (λ e. no_job-Behind) (λ e. placed p.delivery.item refl)
      where
        placed :
            (o : Option OutboxItem)
            → p.delivery.item ≡ o
            → Behind (
                scheduled (elim o [
                  | some b ↦ (put_timeout, p.delivery)
                  | none ↦ (put_ok, record p.delivery { item = some item })
                ]))
        placed (some b) e = no_job-Behind
        placed none e = record {
          valid = h.valid;
          in_order = h.in_order;
          flow = offer-Flow _ p.attempts p.publisher item p.results.item next (
              subst
                (λ o.
                  Flow false (queue_of p.storage.db.outbox) p.attempts p.publisher o p.results.item)
                e
                (subst
                  (λ b.
                    Flow b (queue_of p.storage.db.outbox) p.attempts p.publisher p.delivery.item
                      p.results.item)
                  idle h.flow));
          opened = h.opened;
          delivered = h.delivered;
        }

    offered-Behind :
        (fails : Bool) (x : StoreResult × Option OutboxItem)
        → IsHead p.storage.db x
        → Behind (offered fails x p.delivery)
    unfolding offered
    offered-Behind fails (result, some item) (is_ok, next, has, digits) = put-Behind fails item next
    offered-Behind fails (empty, none) t = no_job-Behind
    offered-Behind fails (ok, none) t = error-Behind
    offered-Behind fails (not_found, none) t = error-Behind
    offered-Behind fails (invalid_argument, none) t = error-Behind
    offered-Behind fails (busy, none) t = error-Behind
    offered-Behind fails (db_error, none) t = error-Behind
    offered-Behind fails (schema_error, none) t = error-Behind
    offered-Behind fails (serialization_error, none) t = error-Behind
    offered-Behind fails (no_memory, none) t = error-Behind

  next-IsKeeping : IsKeeping (loop_test p.storage, p.delivery)
  unfolding schedule_move loop_test
  next-IsKeeping = record {
    valid = h.valid;
    in_order = h.in_order;
    flow = h.flow;
    opened = h.opened;
    delivered = h.delivered;
  }

  error-IsKeeping : IsKeeping (record p.storage { phase = ended }, p.delivery)
  unfolding schedule_move
  error-IsKeeping = record {
    valid = h.valid;
    in_order = h.in_order;
    flow = h.flow;
    opened = h.opened;
    delivered = h.delivered;
  }

  schedule-IsKeeping :
      (should_stop : Bool) (clock : Option ℕ) (s : Query) (c : CopyAnswers) (fails : Bool)
      → IsKeeping (storage_schedule should_stop clock s c fails p.storage p.delivery)
  unfolding storage_schedule gateway_storage_schedule_delivery
  schedule-IsKeeping should_stop clock s c fails =
      if_both IsKeeping (p.storage.delivery_inflight || should_stop)
        (loop_test p.storage, p.delivery) _ (λ e. next-IsKeeping) (λ e. timed clock (ground arith))
    where
      timed :
          (t : Option ℕ)
          → p.storage.delivery_inflight ≡ false
          → IsKeeping (elim t [
            | none ↦ (record p.storage { phase = ended }, p.delivery)
            | some now_ms ↦
                if ltb now_ms p.storage.retry_not_before_ms
                then (loop_test p.storage, p.delivery)
                else after_schedule
                    (offered fails
                      (outbox_store_read_earliest_pending true s c p.storage.db)
                      p.delivery)
                    p.storage
          ])
      timed none idle = error-IsKeeping
      timed (some now_ms) idle =
          if_both IsKeeping (ltb now_ms p.storage.retry_not_before_ms)
            (loop_test p.storage, p.delivery) _ (λ e. next-IsKeeping)
            (λ e. offered-Behind idle fails _ (read-IsHead p.storage.db true s c h.valid))

  pub schedule-IsFlowing :
      {Double : Type 0} (to_json : Measurement Double → Json) (should_stop : Bool)
      (clock : Option ℕ) (s : Query) (c : CopyAnswers) (fails : Bool)
      → IsFlowing start (move to_json (schedule should_stop clock s c fails) p)
  unfolding move
  schedule-IsFlowing to_json should_stop clock s c fails =
      if_both (IsFlowing start) (is_at at_schedule p.storage.phase) _ p
        (λ e. schedule-IsKeeping should_stop clock s c fails) (λ e. h)
