-- ===== src/Traits.antt =====
-- The traits that adapters implement, as records of operations on the world:
-- outbox-core/src/storage.rs, publisher.rs, idempotency/storage.rs and dlq/storage.rs.
use oxide_outbox.Prelude.{ℕ, String, Bool, true, List}
use oxide_outbox.Exec.{Exec, config_error, pure, raise}
use oxide_outbox.Object.EventId.{EventId}
use oxide_outbox.Object.IdempotencyToken.{IdempotencyToken}
use oxide_outbox.Model.{Event, EventStatus, DlqEntry}

pub record OutboxStorage (P W : Type 0) : Type 0 where
  pub fetch_next_to_process : ℕ → Exec W (List (Event P))
  pub update_status : List EventId → EventStatus → Exec W (Unit {0})
  pub delete_garbage : Exec W (Unit {0})
  pub wait_for_notification : String → Exec W (Unit {0})
  pub quarantine_events : List DlqEntry → Exec W (Unit {0})

-- The body that the trait gives `quarantine_events` for a backend without one.
abbrev pub default_quarantine_events : {W : Type 0} → List DlqEntry → Exec W (Unit {0})
default_quarantine_events entries = raise (
    config_error
      "OutboxStorage::quarantine_events: DLQ is not implemented by this backend (rebuild the storage crate with its `dlq` feature enabled)")

pub record OutboxWriter (P W : Type 0) : Type 0 where
  pub insert_event : Event P → Exec W (Unit {0})

pub record Transport (P W : Type 0) : Type 0 where
  pub publish : Event P → Exec W (Unit {0})

pub record IdempotencyStorageProvider (W : Type 0) : Type 0 where
  pub try_reserve : IdempotencyToken → Exec W Bool

-- `NoIdempotency`
abbrev pub no_idempotency : {W : Type 0} → IdempotencyStorageProvider W
no_idempotency = record { try_reserve = λ token. pure true }

pub record DlqHeap (W : Type 0) : Type 0 where
  pub record_failure : EventId → Exec W (Unit {0})
  pub record_success : EventId → Exec W (Unit {0})
  pub drain_exceeded : ℕ → Exec W (List DlqEntry)
