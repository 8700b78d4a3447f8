-- ===== src/System/Batch.antt =====
-- One batch of the worker on PostgreSQL: what it leaves in the table.
use oxide_outbox.Prelude.{
  ℕ, String, ◌≡◌, refl, sym, ap, inl, inr, Option, none, some, Bool, List, [], ◌∷◌, map, length,
  is_empty, if◌then◌else◌, arith,
}
use oxide_outbox.Exec.{ok, Exec, pure, ◌>>◌}
use oxide_outbox.Exec.Laws.{Outcome-cases}
use oxide_outbox.Object.EventId.{EventId, as_uuid}
use oxide_outbox.Runtime.{Shutdown, Metrics}
use oxide_outbox.Model.{Event, sent}
use oxide_outbox.Config.{OutboxConfig}
use oxide_outbox.Traits.{Transport, DlqHeap}
use oxide_outbox.Processor.{
  OutboxProcessor, note_success, note_failure, success_metrics, error_metrics, publish_all, mark,
  event_publish, process_pending_events,
}
use oxide_outbox.Processor.Aside.{IsAside, publish_all-Keeps}
use oxide_outbox.Manager.{processor}
use oxide_outbox.Postgres.Sql.{Db}
use oxide_outbox.Postgres.{set_status, update_status, fetch_next_to_process}
use oxide_outbox.Postgres.Fetch.Claims.{claimed_rows, fetch_ok}
use oxide_outbox.System.{worker, heaped, measured, carried}

set_status-nil : {P : Type 0} (rows : List (Event P)) → map (set_status [] sent) rows ≡ rows
set_status-nil [] = refl
set_status-nil (e ∷ es) = ap (λ l. e ∷ l) (set_status-nil es)

module _ {P X : Type 0} where
  success-aside :
      (heap : Option (DlqHeap X)) (id : EventId) (w : Db P × X)
      → (note_success (heaped heap) id w).1.0 ≡ w.0
  success-aside none id w = refl
  success-aside (some h) id w = refl

  failure-aside :
      (heap : Option (DlqHeap X)) (id : EventId) (w : Db P × X)
      → (note_failure (heaped heap) id w).1.0 ≡ w.0
  failure-aside none id w = refl
  failure-aside (some h) id w = refl

  success_metrics-aside :
      (metrics : Option (Metrics X)) (ty : String) (w : Db P × X)
      → (success_metrics (measured metrics) ty w).0 ≡ w.0
  success_metrics-aside none ty w = refl
  success_metrics-aside (some m) ty w = refl

  error_metrics-aside :
      (metrics : Option (Metrics X)) (ty : String) (w : Db P × X)
      → (error_metrics (measured metrics) ty w).0 ≡ w.0
  error_metrics-aside none ty w = refl
  error_metrics-aside (some m) ty w = refl

  pub carried-IsAside :
      (transport : Transport P X) (heap : Option (DlqHeap X)) (metrics : Option (Metrics X))
      → IsAside (λ (w : Db P × X). w.0) (carried transport) (heaped heap) (measured metrics)
  carried-IsAside transport heap metrics = record {
    publishes = λ e. record { same = λ w. refl };
    successes = λ id. record { same = success-aside heap id };
    failures = λ id. record { same = failure-aside heap id };
    success_marks = success_metrics-aside metrics;
    error_marks = error_metrics-aside metrics;
  }

-- A table in which the given events were marked `Sent`, and nothing else was done.
pub record IsMarked {P : Type 0} (ids : List EventId) (before : List (Event P)) (now : ℕ)
    (locked : ℕ → Bool) (after : Db P) : Type 0 where
  pub marked_rows : after.rows ≡ map (set_status (map as_uuid ids) sent) before
  pub same_now : after.now ≡ now
  pub same_locked : after.row_locked ≡ locked

update-IsMarked :
    {P : Type 0} (ids : List EventId) (db : Db P)
    → (update_status ids sent db).0 ≡ ok tt
    → IsMarked ids db.rows db.now db.row_locked (update_status ids sent db).1
unfolding update_status
update-IsMarked ids db h = record {
  marked_rows = ground arith;
  same_now = ground arith;
  same_locked = ground arith;
}

module _ {P X : Type 0} (config : OutboxConfig P) (transport : Transport P X)
    (heap : Option (DlqHeap X)) (metrics : Option (Metrics X)) (rx : Shutdown (Db P × X)) where
  -- The processor of the worker.
  abbrev pub batcher : OutboxProcessor P (Db P × X)
  batcher = processor (worker config transport heap rx)

  mark-IsMarked :
      (ids : List EventId) (w : Db P × X)
      → (mark batcher ids w).0 ≡ ok tt
      → IsMarked ids w.0.rows w.0.now w.0.row_locked (mark batcher ids w).1.0
  unfolding mark
  mark-IsMarked [] w h = record {
    marked_rows = sym (set_status-nil w.0.rows);
    same_now = refl;
    same_locked = refl;
  }
  mark-IsMarked (id ∷ ids) w h = update-IsMarked (id ∷ ids) w.0 h

  -- The loop over a batch, in the world of the batch.
  abbrev pub sending : List (Event P) → Exec (Db P × X) (List EventId)
  sending es = publish_all (heaped heap) (measured metrics) batcher es []

  pub sending-db : (es : List (Event P)) (w : Db P × X) → (sending es w).1.0 ≡ w.0
  sending-db es w =
      (publish_all-Keeps (heaped heap) (measured metrics) (λ (v : Db P × X). v.0) batcher
          (carried-IsAside transport heap metrics) es []).same
        w

  event_publish-IsMarked :
      (es : List (Event P)) (w : Db P × X)
      → (event_publish (heaped heap) (measured metrics) batcher es w).0 ≡ ok tt
      → (ids : List EventId) × ((sending es w).0 ≡ ok ids)
        × IsMarked ids w.0.rows w.0.now w.0.row_locked
            (event_publish (heaped heap) (measured metrics) batcher es w).1.0
  unfolding event_publish
  event_publish-IsMarked es w h = elim (Outcome-cases (sending es w).0) [
    | inl (ids, q) ↦
        (ids, q, rw q (rw (sending-db es w) at (mark-IsMarked ids (sending es w).1 (rw q at h))))
    | inr q ↦ absurd (ground arith)
  ]

  -- What follows the fetch.
  abbrev rest : List (Event P) → Exec (Db P × X) ℕ
  rest es =
      if is_empty es
      then pure 0
      else (event_publish (heaped heap) (measured metrics) batcher es >> pure (length es))

  rest-IsMarked :
      (es : List (Event P)) (w : Db P × X) (n : ℕ)
      → (rest es w).0 ≡ ok n
      → (n ≡ length es)
        × (ids : List EventId) × ((sending es w).0 ≡ ok ids)
        × IsMarked ids w.0.rows w.0.now w.0.row_locked (rest es w).1.0
  unfolding publish_all
  rest-IsMarked [] w n h = (
    ground arith,
    [],
    refl,
    record { marked_rows = sym (set_status-nil w.0.rows); same_now = refl; same_locked = refl },
  )
  rest-IsMarked (e ∷ es) w n h =
      elim (Outcome-cases (event_publish (heaped heap) (measured metrics) batcher (e ∷ es) w).0) [
        | inl (u, q) ↦
            let (ids, sent_ids, made) = event_publish-IsMarked (e ∷ es) w q in
            (ground arith, ids, sent_ids, rw q made)
        | inr q ↦ absurd (ground arith)
      ]

  -- A batch of the worker that returns `Ok n`, on PostgreSQL: `n` rows were claimed by one fetch,
  -- and published in the world that the fetch left; then the table is the claimed one with the
  -- identifiers that the loop collected set to `Sent`, and otherwise unchanged, so that a claimed
  -- row that was not collected keeps its lock. The server's clock and locks are as before.
  pub worker_batch :
      (db : Db P) (x : X) (n : ℕ)
      → let done = process_pending_events (heaped heap) (measured metrics) batcher (db, x) in
        let fetched = fetch_next_to_process config config.batch_size db in
        done.0 ≡ ok n
        → (es : List (Event P)) × (fetched.0 ≡ ok es)
          × (n ≡ length es)
          × (ids : List EventId) × ((sending es (fetched.1, x)).0 ≡ ok ids)
          × IsMarked ids (claimed_rows config config.batch_size db) db.now db.row_locked done.1.0
  unfolding process_pending_events
  worker_batch db x n h =
      elim (Outcome-cases (fetch_next_to_process config config.batch_size db).0) [
        | inl (es, q) ↦
            let db1 = (fetch_next_to_process config config.batch_size db).1 in
            let (count, ids, all, made) = rest-IsMarked es (db1, x) n (rw q at h) in
            let (_, rows, _, now, locked) = fetch_ok config config.batch_size db es q in
            (es, q, count, ids, all, rw q (rw (rows, now, locked) at made))
        | inr q ↦ absurd (ground arith)
      ]
