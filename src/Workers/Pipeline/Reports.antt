-- ===== src/Workers/Pipeline/Reports.antt =====
-- What gateway_storage_worker makes of a delivery report.
use edgevision_gateway.Common.{
  ℕ, ◌≢◌, sym, subst, ◌≡◌, inl, inr, refl, ap, ◌∙◌, Bool, true, false, Option, none, some, List, [],
  ◌∷◌, ◌++◌, length, leb, if_both,
}
use edgevision_gateway.Common.Int.{ℤ, pos, leb_ℤ}
use edgevision_gateway.Storage.Result.{
  StoreResult, ok, empty, not_found, invalid_argument, busy, db_error, schema_error,
  serialization_error, no_memory, Stmt,
}
use edgevision_gateway.Storage.Tables.{Database, set_sent}
use edgevision_gateway.Storage.Tables.Pending.{queue_of}
use edgevision_gateway.Storage.Outbox.{Json, json_failure}
use edgevision_gateway.Storage.Outbox.Reads.{IsValid}
use edgevision_gateway.Storage.Outbox.Steps.{IsQuiet, IsExactUpdate, mark_sent-IsExactUpdate}
use edgevision_gateway.Storage.Outbox.History.{deliver-Holds, fail-Holds, failed_of}
use edgevision_gateway.Workers.Pipeline.{
  PublishResult, publish_ok, publish_error, Report, taken, error_text, applied,
  gateway_storage_apply_report,
}
use edgevision_gateway.Workers.Pipeline.Moves.{Attempt, sent_with}
use edgevision_gateway.Workers.Pipeline.Flow.{Delivered, marked, IsBacked}

applied_bad :
    (retry : Bool) (r : StoreResult) (db : Database) → r ≢ ok → applied retry (r, db) ≡ (none, db)
unfolding applied
applied_bad retry ok db bad = absurd (bad refl)
applied_bad retry empty db bad = refl
applied_bad retry not_found db bad = refl
applied_bad retry invalid_argument db bad = refl
applied_bad retry busy db bad = refl
applied_bad retry db_error db bad = refl
applied_bad retry schema_error db bad = refl
applied_bad retry serialization_error db bad = refl
applied_bad retry no_memory db bad = refl

applied_keeps : (retry : Bool) (r : StoreResult) (db : Database) → (applied retry (r, db)).1 ≡ db
unfolding applied
applied_keeps retry ok db = refl
applied_keeps retry empty db = refl
applied_keeps retry not_found db = refl
applied_keeps retry invalid_argument db = refl
applied_keeps retry busy db = refl
applied_keeps retry db_error db = refl
applied_keeps retry schema_error db = refl
applied_keeps retry serialization_error db = refl
applied_keeps retry no_memory db = refl

module _ (start : Database) (saved : List ℕ) (attempts : List Attempt) where
  -- No measurement is saved here.
  abbrev no_json : ℕ → Json
  no_json m = json_failure

  -- The tables, the queue and the attempts, with the entries marked as sent.
  abbrev pub IsServed : List ℕ → Database → Type 0
  IsServed sent db =
      (IsValid db × (queue_of start.outbox ++ saved ≡ sent ++ queue_of db.outbox))
      × Delivered (queue_of start.outbox ++ saved) sent attempts

  abbrev sent_if : Option Bool → ℕ → List ℕ → List ℕ
  sent_if (some retry) id sent = sent ++ id ∷ []
  sent_if none id sent = sent

  module _ (sent later : List ℕ) (db : Database) (id : ℕ) (h : IsServed sent db)
      (at : queue_of db.outbox ≡ id ∷ later) where
    abbrev MarkServes : Option Bool × Database → Type 0
    MarkServes (o, after) = IsServed (sent_if o id sent) after

    marked-IsServed :
        (now : ℤ) (retry : Bool) (x : StoreResult × Database)
        → IsBacked publish_ok id attempts
        → IsExactUpdate id (set_sent now) db x
        → MarkServes (applied retry x)
    unfolding applied
    marked-IsServed now retry (r, after) (before, last) (inl (is_ok, is)) = rw is_ok (
      deliver-Holds no_json start saved sent later db after id now h.0 at (inl is),
      marked id later before h.1 last (h.0.1 ∙ ap (λ l. sent ++ l) at),
    )
    marked-IsServed now retry (r, after) b (inr (bad, is)) =
        subst MarkServes (sym (applied_bad retry r after bad)) (rw is h)

    failure-IsServed :
        (retry : Bool) (x : StoreResult × Database)
        → IsServed sent x.1
        → IsServed sent (applied retry x).1
    failure-IsServed retry (r, after) k =
        subst (IsServed sent) (sym (applied_keeps retry r after)) k

    -- The report on the entry at the head of the queue.
    pub report-IsServed :
        (s : Stmt) (result : PublishResult) (now : ℤ)
        → IsQuiet s
        → IsBacked result id attempts
        → let report : Report = record {
          outbox_id = id;
          publish_result = result;
          sent_at_ms = now;
        } in
          IsServed (sent_with s db (taken report) sent) (gateway_storage_apply_report s report db).1
    unfolding sent_with gateway_storage_apply_report
    report-IsServed s publish_ok now quiet b =
        if_both
          (λ (x : Option Bool × Database).
            IsServed (elim x.0 [ some retry ↦ sent ++ id ∷ [] | none ↦ sent ]) x.1)
          (leb_ℤ now (pos 0)) _ _ (λ e. h)
          (λ e.
            marks _
              (marked-IsServed now false _ b (mark_sent-IsExactUpdate s id now db later quiet at)))
      where
        marks :
            (x : Option Bool × Database)
            → MarkServes x
            → IsServed (elim x.0 [ some retry ↦ sent ++ id ∷ [] | none ↦ sent ]) x.1
        marks (some retry, after) k = k
        marks (none, after) k = k
    report-IsServed s (publish_error n) now quiet b =
        if_both (λ (x : Option Bool × Database). IsServed sent x.1) (leb 64 (length (error_text n)))
          _ _ (λ e. h)
          (λ e. failure-IsServed true _ (
            fail-Holds no_json start saved sent db _ id (error_text n) _ h.0
                (failed_of no_json start s id (error_text n) db _ _ refl),
            h.1,
          ))
