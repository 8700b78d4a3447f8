-- ===== src/System/Spared.antt =====
-- What the background loops of gc.rs and dlq/processor.rs, run on the storage of
-- outbox-postgres/src/lib.rs, must leave in the outbox table.
use oxide_outbox.Prelude.{◌<◌, ℕ, true, not, ◌≡◌, ◌≢◌, List, All, arith, In-keep}
use oxide_outbox.Exec.{Outcome, ok, err, panicked}
use oxide_outbox.Runtime.{Shutdown}
use oxide_outbox.Model.{Event, DlqEntry, sent}
use oxide_outbox.Config.{OutboxConfig}
use oxide_outbox.Traits.{DlqHeap}
use oxide_outbox.Heap.{Counts, Counted, IsHeap, after_drain}
use oxide_outbox.Loop.{Turn, on_changed}
use oxide_outbox.Loop.Stopping.{run_loop-invariant}
use oxide_outbox.Gc
use oxide_outbox.Reaper
use oxide_outbox.Reaper.{reap}
use oxide_outbox.Postgres.Sql.{Db, uuid_of}
use oxide_outbox.Postgres.{delete_garbage, quarantine_events, postgres_outbox}
use oxide_outbox.Postgres.Schema.Rows.{Keyed-keep}
use oxide_outbox.Postgres.Garbage.{Standing, delete_garbage-Standing}
use oxide_outbox.System.{on_first, stored}
use oxide_outbox.System.Reap.{
  swallow-world, drained, reaper, entries_of, is_due, Reaped, reap-Reaped,
}

on_changed-same : {W : Type 0} (rx : Shutdown W) (w : W) → (on_changed rx w).1 ≡ w
on_changed-same rx w = ground arith

module _ {P X : Type 0} (rx : Shutdown (Db P × X)) (e : Event P) where
  module _ (config : OutboxConfig P) (unsent : e.status ≢ sent) where
    gc_round-Standing :
        (arm : Gc.Arm) (w : Db P × X)
        → Standing e w.0
        → Standing e (Gc.round (Gc.new (stored (postgres_outbox config))) rx arm w).1.0
    unfolding Gc.round
    gc_round-Standing Gc.tick w h =
        rw (swallow-world (on_first (delete_garbage config) w))
          (delete_garbage-Standing config e unsent w.0 h)
    gc_round-Standing Gc.changed w h = rw (on_changed-same rx w) h

    -- The collector takes no event that was not sent: over every schedule, a row that is not `Sent`
    -- stands in the table, as it was, when `GarbageCollector::run` ends, if the other tasks of the
    -- schedule leave it there. The table has a primary key, before and behind each of them.
    pub gc_run-spares :
        (ts : List (Turn Gc.Arm (Db P × X))) (w : Db P × X)
        → All (λ t. (v : Db P × X) → Standing e v.0 → Standing e (t.others v).0) ts
        → Standing e w.0
        → Standing e (Gc.run (Gc.new (stored (postgres_outbox config))) rx ts w).1.0
    unfolding Gc.run
    gc_run-spares ts w others h =
        run_loop-invariant (Gc.round (Gc.new (stored (postgres_outbox config))) rx)
          (λ v. Standing e v.0) gc_round-Standing ts others w h

-- The row stands in the table, and its event's count is below the threshold.
abbrev pub Spared : {P X : Type 0} → (threshold : ℕ) → (X → Counts) → Event P → Db P × X → Type 0
Spared threshold counts e w = Standing e w.0 × (counts w.1 (uuid_of e) < threshold)

module _ {P X : Type 0} (config : OutboxConfig P) (most : ℕ) (counts : X → Counts)
    (heap : DlqHeap X) (h : IsHeap most counts heap) (rx : Shutdown (Db P × X)) (e : Event P) where
  abbrev Safe : Db P × X → Type 0
  Safe = Spared config.dlq_threshold counts e

  undue :
      (c : Counts)
      → c (uuid_of e) < config.dlq_threshold
      → not (is_due config.dlq_threshold c e) ≡ true
  undue c l = ground arith

  Reaped-Standing :
      (r : Outcome (List DlqEntry)) (q : Outcome (Unit {0})) (c : Counts) (db db' : Db P)
      → c (uuid_of e) < config.dlq_threshold
      → Reaped r q config.dlq_threshold c db db'
      → Standing e db
      → Standing e db'
  Reaped-Standing (ok a) (ok b) c db db' l m (keyed, i) =
      rw m.0 (Keyed-keep _ db.rows keyed, In-keep _ e db.rows i (undue c l))
  Reaped-Standing (ok a) (err x) c db db' l m s = rw m.0 s
  Reaped-Standing (ok a) (panicked x) c db db' l m s = rw m.0 s
  Reaped-Standing (err x) q c db db' l m s = rw m.0 s
  Reaped-Standing (panicked x) q c db db' l m s = rw m.0 s

  Counted-below :
      {A : Type 0} (r : Outcome A) (c c' : Counts)
      → c (uuid_of e) < config.dlq_threshold
      → Counted (λ _. after_drain config.dlq_threshold) c r c'
      → c' (uuid_of e) < config.dlq_threshold
  Counted-below (ok a) c c' l m = ground (arith, m (uuid_of e))
  Counted-below (err x) c c' l m = ground (arith, m (uuid_of e))
  Counted-below (panicked x) c c' l m = ground (arith, m (uuid_of e))

  dlq_round-Safe :
      (arm : Gc.Arm) (w : Db P × X) → Safe w → Safe (Reaper.round (reaper config heap rx) arm w).1
  unfolding Reaper.round
  dlq_round-Safe Gc.tick w (s, l) =
      let taken = drained config heap w.1 in
      let (tables, counted) = reap-Reaped config most counts heap h rx w in
      (
        Reaped-Standing taken.0 (quarantine_events (entries_of taken.0) w.0).0 (counts w.1) w.0
            (reap (reaper config heap rx) w).1.0 l tables s,
        Counted-below taken.0 (counts w.1) _ l counted,
      )
  dlq_round-Safe Gc.changed w s = rw (on_changed-same rx w) s

  -- The dead-letter task takes no event whose count is below the threshold: over every schedule, with
  -- any heap that keeps the contract of `DlqHeap`, a row whose event's count is below
  -- `dlq_threshold` stands in the outbox table, as it was, and its count is below the threshold, when
  -- `DlqProcessor::run` ends, if the other tasks of the schedule leave it so. The table has a primary
  -- key, before and behind each of them.
  pub dlq_run-spares :
      (ts : List (Turn Gc.Arm (Db P × X))) (w : Db P × X)
      → All
          (λ t.
            (v : Db P × X)
            → Spared config.dlq_threshold counts e v
            → Spared config.dlq_threshold counts e (t.others v))
          ts
      → Spared config.dlq_threshold counts e w
      → Spared config.dlq_threshold counts e (Reaper.run (reaper config heap rx) ts w).1
  unfolding Reaper.run
  dlq_run-spares ts w others s =
      run_loop-invariant (Reaper.round (reaper config heap rx)) Safe dlq_round-Safe ts others w s
