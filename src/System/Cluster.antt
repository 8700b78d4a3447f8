-- ===== src/System/Cluster.antt =====
-- The crates deployed: producers, any number of workers, and the two background tasks, over one
-- PostgreSQL database, interleaved between their calls in any order. A process may be killed
-- between any two of its calls.
pub mod Advance
pub mod Produce
pub mod Custody
pub mod Runs
use oxide_outbox.Prelude.{
  ℕ, String, Bool, true, ◌≡◌, Option, none, some, List, [], ◌∷◌, map, contains, ◌==◌, if◌then◌else◌,
}
use oxide_outbox.Exec.{Outcome, ok, err, panicked, Exec}
use oxide_outbox.Object.EventId.{EventId, as_uuid}
use oxide_outbox.Object.IdempotencyToken.{IdempotencyToken}
use oxide_outbox.Object.Payload
use oxide_outbox.Runtime.{Runtime, Metrics}
use oxide_outbox.Model.{Event, DlqEntry}
use oxide_outbox.Config.{OutboxConfig}
use oxide_outbox.Traits.{Transport, DlqHeap, IdempotencyStorageProvider}
use oxide_outbox.Service.{OutboxService, add_event}
use oxide_outbox.Processor
use oxide_outbox.Processor.{
  OutboxProcessor, note_success, note_failure, success_metrics, error_metrics,
}
use oxide_outbox.Processor.Steps.{Phase, ready, sending, noting, finished, advance}
use oxide_outbox.Postgres.Sql.{Db, uuid_of}
use oxide_outbox.Postgres.Writer.{postgres_writer}
use oxide_outbox.Postgres.{postgres_outbox, delete_garbage, quarantine_events}
use oxide_outbox.System.{
  on_first, on_second, stored, carried, heaped, measured, written, guarded, timed,
}

-- What is deployed. `X` is all of the world but the database.
pub record Site (P X : Type 0) : Type 0 where
  pub transport : Transport P X
  pub heap : Option (DlqHeap X)
  pub metrics : Option (Metrics X)
  pub runtime : Runtime X
  pub provider : Option (IdempotencyStorageProvider X)
  pub to_value : Payload.Payload P → Option String
  pub config : OutboxConfig P

pub record Cluster (P X : Type 0) : Type 0 where
  pub db : Db P
  pub rest : X
  -- Where each worker stands in its batch.
  pub phase : ℕ → Phase P

abbrev pub set_phase : {P : Type 0} → (ℕ → Phase P) → ℕ → Phase P → ℕ → Phase P
set_phase f i c j = if i == j then c else f j

-- The events that the broker took, seen in the world: what `m` does takes none back.
abbrev pub Grows : {A X : Type 0} → (X → ℕ → Type 0) → (X → A × X) → Type 0
Grows {X = X} delivered m = (x : X) (k : ℕ) → delivered x k → delivered (m x).1 k

module _ {P X : Type 0} where
  abbrev pub site_service : Site P X → OutboxService P (Db P × X)
  site_service s = record {
    writer = written (postgres_writer s.to_value);
    config = s.config;
    idempotency_storage = guarded s.provider;
  }

  abbrev pub site_processor : Site P X → OutboxProcessor P (Db P × X)
  site_processor s =
      Processor.new (stored (postgres_outbox s.config)) (carried s.transport) s.config

  -- The next call of a worker's batch.
  abbrev pub site_advance : Site P X → Phase P → Db P × X → Phase P × (Db P × X)
  site_advance s = advance (heaped s.heap) (measured s.metrics) (site_processor s)

  abbrev pub site_add_event :
      Site P X → String → P → Option String → Exec X (Option (Event P)) → Exec (Db P × X) (Unit {0})
  site_add_event s event_type payload given get_event =
      add_event (timed s.runtime) (site_service s) event_type payload given (on_second get_event)

  -- The cluster behind a call.
  abbrev pub worked : Site P X → ℕ → Cluster P X → Cluster P X
  worked s i c =
      let done = site_advance s (c.phase i) (c.db, c.rest) in
      record { db = done.1.0; rest = done.1.1; phase = set_phase c.phase i done.0 }

  abbrev pub restarted : ℕ → Cluster P X → Cluster P X
  restarted i c = record c { phase = set_phase c.phase i ready }

  abbrev pub left_by : {A : Type 0} → Exec (Db P × X) A → Cluster P X → Cluster P X
  left_by m c = let done = m (c.db, c.rest) in record c { db = done.1.0; rest = done.1.1 }

  pub record IsLedger (s : Site P X) (delivered : X → ℕ → Type 0) : Type 0 where
    pub accepts :
        (e : Event P) (x : X)
        → (s.transport.publish e x).0 ≡ ok tt
        → delivered (s.transport.publish e x).1 (uuid_of e)
    pub by_publish : (e : Event P) → Grows delivered (s.transport.publish e)
    pub by_success : (id : EventId) → Grows delivered (note_success s.heap id)
    pub by_failure : (id : EventId) → Grows delivered (note_failure s.heap id)
    pub by_success_metrics :
        (ty : String) (x : X) (k : ℕ) → delivered x k → delivered (success_metrics s.metrics ty x) k
    pub by_error_metrics :
        (ty : String) (x : X) (k : ℕ) → delivered x k → delivered (error_metrics s.metrics ty x) k
    pub by_v4 : Grows delivered s.runtime.new_v4
    pub by_v7 : Grows delivered s.runtime.now_v7
    pub by_clock : Grows delivered s.runtime.now_utc
    pub by_reserve :
        (p : IdempotencyStorageProvider X)
        → s.provider ≡ some p
        → (t : IdempotencyToken) → Grows delivered (p.try_reserve t)

  -- One call of one task. `works`: a worker's next call. `restarts`: a worker whose batch is over,
  -- or whose process was killed wherever it stood, is before its next fetch. `produces`: a call of
  -- `add_event`. `collects`: the collector's. `quarantines`: the dead-letter task's second call.
  -- `elsewhere`: all that leaves the two tables alone, and no delivery undone.
  pub data Step (s : Site P X) (delivered : X → ℕ → Type 0)
      : Cluster P X → Cluster P X → Type 0 where
    works : (i : ℕ) (c : Cluster P X) → Step s delivered c (worked s i c)
    restarts : (i : ℕ) (c : Cluster P X) → Step s delivered c (restarted i c)
    produces :
        (event_type : String) (payload : P) (given : Option String)
        (get_event : Exec X (Option (Event P))) (c : Cluster P X)
        → Grows delivered get_event
        → Step s delivered c (left_by (site_add_event s event_type payload given get_event) c)
    collects :
        (c : Cluster P X) → Step s delivered c (left_by (on_first (delete_garbage s.config)) c)
    quarantines :
        (fs : List DlqEntry) (c : Cluster P X)
        → Step s delivered c (left_by (on_first (quarantine_events fs)) c)
    elsewhere :
        (c : Cluster P X) (db' : Db P) (rest' : X)
        → db'.rows ≡ c.db.rows
        → db'.dead ≡ c.db.dead
        → ((k : ℕ) → delivered c.rest k → delivered rest' k)
        → Step s delivered c (record c { db = db'; rest = rest' })

  pub data Reach (s : Site P X) (delivered : X → ℕ → Type 0) (start : Cluster P X)
      : Cluster P X → Type 0 where
    here : Reach s delivered start start
    next :
        {c c' : Cluster P X}
        → Reach s delivered start c
        → Step s delivered c c'
        → Reach s delivered start c'

-- What a worker has collected was delivered.
abbrev pub Collected : {P : Type 0} → (ℕ → Type 0) → Phase P → Type 0
Collected D ready = Unit
Collected D (sending es ids count) = (j : ℕ) → contains (map as_uuid ids) j ≡ true → D j
Collected D (noting e (ok u) es ids count) =
    D (uuid_of e) × ((j : ℕ) → contains (map as_uuid ids) j ≡ true → D j)
Collected D (noting e (err x) es ids count) = (j : ℕ) → contains (map as_uuid ids) j ≡ true → D j
Collected D (noting e (panicked m) es ids count) =
    (j : ℕ) → contains (map as_uuid ids) j ≡ true → D j
Collected D (finished r) = Unit
