-- ===== src/System.antt =====
-- The worker of outbox-core/src/manager.rs on the storage of outbox-postgres/src/lib.rs: one world
-- of two parts, the database and the rest, which the broker, the heap and the metrics act on.
pub mod Batch
pub mod Drain
pub mod Cluster
pub mod Reap
pub mod Poison
pub mod Kept
pub mod Forward
pub mod Spared
pub mod Delivery
pub mod Dedup
use oxide_outbox.Prelude.{ℕ, String, Option, none, some, List}
use oxide_outbox.Exec.{Exec}
use oxide_outbox.Runtime.{Runtime, Shutdown, Metrics}
use oxide_outbox.Config.{OutboxConfig}
use oxide_outbox.Traits.{
  OutboxStorage, OutboxWriter, Transport, IdempotencyStorageProvider, DlqHeap,
}
use oxide_outbox.Manager
use oxide_outbox.Manager.{OutboxManager}
use oxide_outbox.Postgres.Sql.{Db}
use oxide_outbox.Postgres.{postgres_outbox}

module _ {A X : Type 0} where
  -- An action on one part.
  abbrev pub on_first : {B : Type 0} → Exec A B → Exec (A × X) B
  on_first m (a, x) = let (r, a') = m a in (r, (a', x))

  abbrev pub on_second : {B : Type 0} → Exec X B → Exec (A × X) B
  on_second m (a, x) = let (r, x') = m x in (r, (a, x'))

  abbrev pub stored : {P : Type 0} → OutboxStorage P A → OutboxStorage P (A × X)
  stored s = record {
    fetch_next_to_process = λ n. on_first (s.fetch_next_to_process n);
    update_status = λ ids st. on_first (s.update_status ids st);
    delete_garbage = on_first s.delete_garbage;
    wait_for_notification = λ channel. on_first (s.wait_for_notification channel);
    quarantine_events = λ es. on_first (s.quarantine_events es);
  }

  abbrev pub carried : {P : Type 0} → Transport P X → Transport P (A × X)
  carried t = record { publish = λ e. on_second (t.publish e) }

  abbrev pub lifted : DlqHeap X → DlqHeap (A × X)
  lifted h = record {
    record_failure = λ id. on_second (h.record_failure id);
    record_success = λ id. on_second (h.record_success id);
    drain_exceeded = λ n. on_second (h.drain_exceeded n);
  }

  abbrev pub heaped : Option (DlqHeap X) → Option (DlqHeap (A × X))
  heaped none = none
  heaped (some h) = some (lifted h)

  abbrev pub measured : Option (Metrics X) → Option (Metrics (A × X))
  measured none = none
  measured (some m) = some (record {
    increment = λ name labels w. (w.0, m.increment name labels w.1);
    observe = λ name labels w. (w.0, m.observe name labels w.1);
  })

  abbrev pub written : {P : Type 0} → OutboxWriter P A → OutboxWriter P (A × X)
  written writer = record { insert_event = λ e. on_first (writer.insert_event e) }

  abbrev pub guarded :
      Option (IdempotencyStorageProvider X) → Option (IdempotencyStorageProvider (A × X))
  guarded none = none
  guarded (some p) = some (record { try_reserve = λ t. on_second (p.try_reserve t) })

  abbrev pub timed : Runtime X → Runtime (A × X)
  timed rt = record {
    new_v4 = λ w. let (n, x) = rt.new_v4 w.1 in (n, (w.0, x));
    now_v7 = λ w. let (n, x) = rt.now_v7 w.1 in (n, (w.0, x));
    uuid_text = rt.uuid_text;
    now_utc = λ w. let (t, x) = rt.now_utc w.1 in (t, (w.0, x));
  }

module _ {P X : Type 0} where
  -- The manager of a `PostgresOutbox`.
  abbrev pub worker :
      OutboxConfig P
      → Transport P X
      → Option (DlqHeap X)
      → Shutdown (Db P × X)
      → OutboxManager P (Db P × X)
  worker config transport heap rx =
      Manager.new (stored (postgres_outbox config)) (carried transport) config (heaped heap) rx
