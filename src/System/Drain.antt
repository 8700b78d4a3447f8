-- ===== src/System/Drain.antt =====
-- The worker's inner loop on PostgreSQL ends.
use oxide_outbox.Prelude.{
  ℕ, suc, ◌≤◌, ◌<◌, ◌≡◌, ap, inl, inr, Bool, true, not, ◌&&◌, Option, List, [], ◌∷◌, map, length,
  String, arith, length-keep_mono, is_empty, Bool-cases,
}
use oxide_outbox.Prelude.Int.{pos}
use oxide_outbox.Exec.{Outcome, ok}
use oxide_outbox.Exec.Laws.{Returns, bind-Returns}
use oxide_outbox.Object.EventId.{EventId, as_uuid}
use oxide_outbox.Runtime.{Shutdown, Metrics}
use oxide_outbox.Model.{Event, sent}
use oxide_outbox.Config.{OutboxConfig}
use oxide_outbox.Traits.{Transport, DlqHeap}
use oxide_outbox.Processor.{mark, event_publish, process_pending_events}
use oxide_outbox.Processor.Aside.{IsSteady, publish_all-Returns}
use oxide_outbox.Loop.Stopping.{Survives}
use oxide_outbox.Manager.{drain}
use oxide_outbox.Manager.Drain.{IsShrinking, drain-Survives}
use oxide_outbox.Postgres.Sql.{Db, uuid_of, statement, attempt}
use oxide_outbox.Postgres.{
  eligible, candidates, set_status, update_status, fetch_rows, fetch_next_to_process,
}
use oxide_outbox.Postgres.Fetch.Claims.{fetch_ok}
use oxide_outbox.Postgres.Fetch.Backlog.{fetch_shrinks, length-keep-map}
use oxide_outbox.System.{on_first, worker, heaped, measured, carried}
use oxide_outbox.System.Batch.{IsMarked, batcher, worker_batch, sending}

module _ {P : Type 0} where
  sent-eligible :
      (ids : List ℕ) (now : ℕ) (locked : ℕ → Bool) (e : Event P)
      → (eligible now (set_status ids sent e) && not (locked (uuid_of (set_status ids sent e))))
        ≡ true
      → (eligible now e && not (locked (uuid_of e))) ≡ true
  sent-eligible ids now locked e h = ground arith

  -- To mark rows `Sent` adds nothing to claim.
  marked-candidates :
      (ids : List EventId) (db db' : Db P)
      → IsMarked ids db.rows db.now db.row_locked db'
      → length (candidates db') ≤ length (candidates db)
  unfolding candidates
  marked-candidates ids db db' c =
      rw (c.marked_rows, c.same_now, c.same_locked)
        (rw
          (length-keep-map (λ e. eligible db.now e && not (db.row_locked (uuid_of e)))
            (set_status (map as_uuid ids) sent) db.rows)
          (length-keep_mono _ _ (sent-eligible (map as_uuid ids) db.now db.row_locked) db.rows))

  statement-Returns :
      {A : Type 0} (run : Db P → Outcome A × Db P) → Returns run → Returns (statement run)
  unfolding statement
  statement-Returns run h db = go db.faults db
    where
      go : (faults : List (Option String)) → Returns (attempt faults run)
      go [] = h
      go (Option.none ∷ rest) = λ w. h (record w { faults = rest })
      go (Option.some message ∷ rest) = λ w s q. cc

  fetch-Returns :
      (config : OutboxConfig P) (limit : ℕ) → Returns (fetch_next_to_process config limit)
  unfolding fetch_next_to_process
  fetch-Returns config limit =
      statement-Returns (fetch_rows limit config.lock_timeout_mins)
        (unfold fetch_rows in λ db s q. cc)

  update-Returns : (ids : List EventId) → Returns (update_status {P = P} ids sent)
  unfolding update_status
  update-Returns ids = statement-Returns _ (λ db s q. cc)

module _ {P X : Type 0} (config : OutboxConfig P) (transport : Transport P X)
    (heap : Option (DlqHeap X)) (metrics : Option (Metrics X)) (rx : Shutdown (Db P × X)) where
  mark-Returns :
      (ids : List EventId) → Returns (mark (batcher config transport heap metrics rx) ids)
  unfolding mark
  mark-Returns [] = λ w s q. cc
  mark-Returns (id ∷ ids) = λ w. update-Returns (id ∷ ids) w.0

  batch-Returns :
      IsSteady (carried {A = Db P} transport) (heaped heap)
      → Returns (
          process_pending_events
            (heaped heap)
            (measured metrics)
            (batcher config transport heap metrics rx))
  unfolding process_pending_events event_publish
  batch-Returns c =
      bind-Returns (on_first (fetch_next_to_process config config.batch_size)) _
        (λ w. fetch-Returns config config.batch_size w.0)
        λ es. elim (Bool-cases (is_empty es)) [
          | inl t ↦ rw t (λ w s q. cc)
          | inr n ↦ rw n (
              bind-Returns
                (event_publish (heaped heap) (measured metrics)
                  (batcher config transport heap metrics rx) es)
                _
                (bind-Returns (sending config transport heap metrics rx es) _
                  (publish_all-Returns (heaped heap) (measured metrics)
                    (batcher config transport heap metrics rx) c es [])
                  (λ ids. mark-Returns ids))
                (λ _ w s q. cc))
        ]

  pub batch-shrinks :
      (mins : ℕ) (w : Db P × X) (n : ℕ)
      → config.lock_timeout_mins ≡ pos mins
      → let done =
          process_pending_events
            (heaped heap)
            (measured metrics)
            (batcher config transport heap metrics rx)
            w in
        done.0 ≡ ok (suc n) → length (candidates done.1.0) < length (candidates w.0)
  batch-shrinks mins w n m h =
      let (es, q, count, ids, _, marked) =
        worker_batch config transport heap metrics rx w.0 w.1 (suc n) h in
      let (_, rows, _, now, locked) = fetch_ok config config.batch_size w.0 es q in
      omega (
        arith,
        fetch_shrinks config config.batch_size w.0 es mins m q
            (λ e. absurd (ground (arith, ap (λ l. length l) e))),
        marked-candidates ids (fetch_next_to_process config config.batch_size w.0).1
            (process_pending_events (heaped heap) (measured metrics)
              (batcher config transport heap metrics rx) w).1.0
            (rw (rows, now, locked) marked),
      )

  worker-IsShrinking :
      (mins : ℕ)
      → config.lock_timeout_mins ≡ pos mins
      → IsSteady (carried {A = Db P} transport) (heaped heap)
      → IsShrinking
          (measured metrics)
          (worker config transport heap rx)
          (λ (w : Db P × X). length (candidates w.0))
  worker-IsShrinking mins m c = record {
    returns = batch-Returns c;
    shrinks = λ w n h. batch-shrinks mins w n m h;
  }

  -- On PostgreSQL the worker's inner loop terminates, whatever the broker refuses, the connection
  -- and the heap fail, and however many rows there are: more rounds than there are rows to claim
  -- are enough for it to end, by an empty batch, an error or a shutdown that is signalled. The
  -- lock time is not negative, neither the broker nor the heap panics, and while the loop runs the
  -- server's clock stands still and no other task acts.
  pub worker_drains :
      (mins fuel : ℕ) (w : Db P × X)
      → config.lock_timeout_mins ≡ pos mins
      → IsSteady (carried {A = Db P} transport) (heaped heap)
      → length (candidates w.0) < fuel
      → let done = drain (measured metrics) (worker config transport heap rx) fuel w in
        Survives rx done.0 done.1
  worker_drains mins fuel w m c enough =
      drain-Survives (measured metrics) (worker config transport heap rx)
        (λ v. length (candidates v.0)) fuel w (worker-IsShrinking mins m c) enough
