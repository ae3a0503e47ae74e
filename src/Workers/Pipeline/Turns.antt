-- ===== src/Workers/Pipeline/Turns.antt =====
-- The turns of gateway_storage_worker that leave the queue of pending entries alone, and its results.
use edgevision_gateway.Common.{
  ℕ, ◌≡◌, ◌≢◌, inl, inr, refl, sym, ap, subst, ◌∙◌, Bool, true, false, Option, none, some, List,
  ◌++◌, if_both,
}
use edgevision_gateway.Common.Int.{pos}
use edgevision_gateway.Domain.Measurement.{Measurement}
use edgevision_gateway.Storage.Result.{sqlite_ok, Stmt, Query}
use edgevision_gateway.Storage.Tables.{Database}
use edgevision_gateway.Storage.Tables.Pending.{queue_of}
use edgevision_gateway.Storage.Outbox.{Json, OutboxItem}
use edgevision_gateway.Storage.Outbox.Interval.{save-IsStored}
use edgevision_gateway.Storage.Outbox.Reads.{IsValid}
use edgevision_gateway.Storage.Outbox.Steps.{IsQuiet}
use edgevision_gateway.Workers.Commands.{
  ControlKind, ControlRequest, set_interval, get_stats, serve_control,
}
use edgevision_gateway.Workers.Pipeline.{
  Report, taken, take_timeout, take_closed, take_one, at_control, at_results, Storage, ControlTurn,
  control_request, no_request, control_error, storage_control, gateway_storage_apply_report,
  after_report, storage_results, Publisher, fetching, done, publishing, reporting,
}
use edgevision_gateway.Workers.Pipeline.Moves.{
  Attempt, Pipeline, control, results, is_at, results_move, sent_with, move,
}
use edgevision_gateway.Workers.Pipeline.Flow.{Flow, idle-Flow, OpensFor, IsFlowing}
use edgevision_gateway.Workers.Pipeline.Reports.{IsServed, report-IsServed}

-- Valid tables with the same queue.
abbrev IsSame : Database → Database → Type 0
IsSame db after = IsValid after × (queue_of after.outbox ≡ queue_of db.outbox)

kind-IsSame :
    (s : Stmt) (q : Query) (kind : ControlKind) (ms : ℕ) (db : Database)
    → s.step ≢ sqlite_ok
    → IsValid db
    → IsSame db (serve_control s q (record { kind = kind; interval_ms = ms }) db).1
unfolding serve_control
kind-IsSame s q set_interval ms db never v = elim (save-IsStored true s (pos ms) db never) [
  | inl (range, is) ↦
      subst (IsSame db) (sym is)
        (record { ascending = v.ascending; entries = v.entries; paired = v.paired }, refl)
  | inr (bad, is) ↦ subst (IsSame db) (sym is) (v, refl)
]
kind-IsSame s q get_stats ms db never v = (v, refl)

served-IsSame :
    (s : Stmt) (q : Query) (request : ControlRequest) (db : Database)
    → s.step ≢ sqlite_ok
    → IsValid db
    → IsSame db (serve_control s q request db).1
served-IsSame s q request db never v = kind-IsSame s q request.kind request.interval_ms db never v

-- The request names no SQLITE_OK as the result of a step.
abbrev pub IsSaneTurn : ControlTurn → Type 0
IsSaneTurn (control_request request s q pushed) = s.step ≢ sqlite_ok
IsSaneTurn no_request = Unit
IsSaneTurn control_error = Unit

module _ (start : Database) where
  -- A turn that changes neither the queue nor `delivery_inflight`.
  pub same-IsFlowing :
      (p : Pipeline) (w : Storage)
      → IsSame p.storage.db w.db
      → w.delivery_inflight ≡ p.storage.delivery_inflight
      → IsFlowing start p
      → IsFlowing start (record p { storage = w })
  same-IsFlowing p w (v, same) flag h = record {
    valid = v;
    in_order = h.in_order ∙ ap (λ l. p.sent ++ l) (sym same);
    flow = rw (flag, same) h.flow;
    opened = h.opened;
    delivered = h.delivered;
  }

  pub control-IsFlowing :
      {Double : Type 0} (to_json : Measurement Double → Json) (turn : ControlTurn) (p : Pipeline)
      → IsSaneTurn turn
      → IsFlowing start p
      → IsFlowing start (move to_json (control turn) p)
  unfolding move storage_control
  control-IsFlowing to_json turn p sane h =
      if_both (IsFlowing start) (is_at at_control p.storage.phase) _ p (λ e. served turn sane)
        (λ e. h)
    where
      served :
          (t : ControlTurn)
          → IsSaneTurn t
          → IsFlowing start (record p { storage = storage_control t p.storage })
      served (control_request request s q pushed) never =
          same-IsFlowing p _ (served-IsSame s q request p.storage.db never h.valid) refl h
      served no_request t = same-IsFlowing p _ (h.valid, refl) refl h
      served control_error t = same-IsFlowing p _ (h.valid, refl) refl h

  -- Behind a report, with the queue of results empty.
  module _ (w : Storage) (job : Option OutboxItem) (job_closed : Bool) (publisher : Publisher)
      (closed : Bool) (saved : List ℕ) (attempts : List Attempt)
      (opened : OpensFor publisher closed) where
    abbrev with_answer : Storage → List ℕ → Pipeline
    with_answer after sent = record {
      storage = after;
      delivery = record { item = job; is_closed = job_closed };
      publisher = publisher;
      results = record { item = none; is_closed = closed };
      saved = saved;
      sent = sent;
      attempts = attempts;
    }

    after_report-IsFlowing :
        (clock : Option ℕ) (x : Option Bool × Database) (sent : List ℕ)
        → IsServed start saved attempts sent x.1
        → ((inflight : Bool) → Flow inflight (queue_of x.1.outbox) attempts publisher job none)
        → IsFlowing start (with_answer (after_report clock x w) sent)
    unfolding after_report
    after_report-IsFlowing clock (none, db) sent ((v, q), d) flow = record {
      valid = v;
      in_order = q;
      flow = flow _;
      opened = opened;
      delivered = d;
    }
    after_report-IsFlowing clock (some false, db) sent ((v, q), d) flow = record {
      valid = v;
      in_order = q;
      flow = flow _;
      opened = opened;
      delivered = d;
    }
    after_report-IsFlowing none (some true, db) sent ((v, q), d) flow = record {
      valid = v;
      in_order = q;
      flow = flow _;
      opened = opened;
      delivered = d;
    }
    after_report-IsFlowing (some now) (some true, db) sent ((v, q), d) flow = record {
      valid = v;
      in_order = q;
      flow = flow _;
      opened = opened;
      delivered = d;
    }

    -- A report is taken, on the entry at the head of the queue.
    reported-IsFlowing :
        (s : Stmt) (clock : Option ℕ) (r : Report) (sent : List ℕ)
        → IsQuiet s
        → IsServed start saved attempts sent w.db
        → Flow w.delivery_inflight (queue_of w.db.outbox) attempts publisher job (some r)
        → IsFlowing start
            (with_answer (storage_results s clock (taken r) w) (sent_with s w.db (taken r) sent))
    unfolding storage_results
    reported-IsFlowing s clock r sent quiet h flow =
        let ((later, at), backed) =
          (idle-Flow true (queue_of w.db.outbox) attempts publisher job w.delivery_inflight r _
            flow).1 in
        after_report-IsFlowing clock (gateway_storage_apply_report s r w.db) _
          (report-IsServed start saved attempts sent later w.db r.outbox_id h at s r.publish_result
            r.sent_at_ms quiet backed)
          (λ inflight. (idle-Flow inflight _ attempts publisher job w.delivery_inflight r _ flow).0)

    -- result_queue is empty and closed, so the MQTT worker has ended.
    closed-Flow :
        (inflight : Bool) (queue : List ℕ)
        → closed ≡ true
        → Flow inflight queue attempts publisher job none
    closed-Flow inflight queue e = ended publisher opened
      where
        ended : (u : Publisher) → OpensFor u closed → Flow inflight queue attempts u job none
        ended done t = tt
        ended fetching t = absurd cc
        ended (publishing item) t = absurd cc
        ended (reporting r) t = absurd cc

    taken-IsFlowing :
        (fails : Bool) (s : Stmt) (clock : Option ℕ) (r : Option Report) (sent : List ℕ)
        → IsQuiet s
        → IsServed start saved attempts sent w.db
        → Flow w.delivery_inflight (queue_of w.db.outbox) attempts publisher job r
        → IsFlowing start (
            results_move s clock
              (take_one fails (record { item = r; is_closed = closed }))
              (record (with_answer w sent) { results = record { item = r; is_closed = closed } }))
    unfolding results_move take_one storage_results sent_with
    taken-IsFlowing true s clock r sent quiet h flow = record {
      valid = h.0.0;
      in_order = h.0.1;
      flow = flow;
      opened = opened;
      delivered = h.1;
    }
    taken-IsFlowing false s clock (some r) sent quiet h flow =
        reported-IsFlowing s clock r sent quiet h flow
    taken-IsFlowing false s clock none sent quiet h flow =
        if_both
          (λ c. IsFlowing start (
            results_move s clock (c, record { item = none; is_closed = closed })
              (with_answer w sent)))
          closed take_closed take_timeout
          (λ e. record {
            valid = h.0.0;
            in_order = h.0.1;
            flow = closed-Flow false _ e;
            opened = opened;
            delivered = h.1;
          })
          (λ e. record {
            valid = h.0.0;
            in_order = h.0.1;
            flow = flow;
            opened = opened;
            delivered = h.1;
          })

  pub results-IsFlowing :
      {Double : Type 0} (to_json : Measurement Double → Json) (fails : Bool) (s : Stmt)
      (clock : Option ℕ) (p : Pipeline)
      → IsQuiet s
      → IsFlowing start p
      → IsFlowing start (move to_json (results fails s clock) p)
  unfolding move
  results-IsFlowing to_json fails s clock p quiet h =
      if_both (IsFlowing start) (is_at at_results p.storage.phase) _ p
        (λ e.
          taken-IsFlowing p.storage p.delivery.item p.delivery.is_closed p.publisher
            p.results.is_closed p.saved p.attempts h.opened fails s clock p.results.item p.sent
            quiet ((h.valid, h.in_order), h.delivered) h.flow)
        (λ e. h)
