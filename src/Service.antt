-- ===== src/Service.antt =====
-- outbox-core/src/service.rs: the producer's side.
pub mod AddEvent
pub mod Contract
pub mod Dedup
pub mod Context
use oxide_outbox.Prelude.{String, Bool, true, false, Option, none, some, if◌then◌else◌}
use oxide_outbox.Exec.{Exec, duplicate_event, pure, raise, effect, ◌>>=◌, ◌>>◌}
use oxide_outbox.Object.IdempotencyToken
use oxide_outbox.Object.IdempotencyToken.{IdempotencyToken}
use oxide_outbox.Object.EventType
use oxide_outbox.Object.Payload
use oxide_outbox.Runtime.{Runtime}
use oxide_outbox.Model.{Event, new_event}
use oxide_outbox.Config.{OutboxConfig, invoke}
use oxide_outbox.Traits.{OutboxWriter, IdempotencyStorageProvider}
use mathlib.Core.Option

pub record OutboxService (P W : Type 0) : Type 0 where
  pub writer : OutboxWriter P W
  pub config : OutboxConfig P
  pub idempotency_storage : Option (IdempotencyStorageProvider W)

-- The `if let … && let … && !try_reserve(…)` of `add_event`.
unfoldable pub reserve :
    {W : Type 0}
    → Option (IdempotencyStorageProvider W)
    → Option IdempotencyToken
    → Exec W (Unit {0})
reserve none i_token = pure tt
reserve (some i_provider) none = pure tt
reserve (some i_provider) (some token) = do
  reserved ← i_provider.try_reserve token
  if reserved then pure tt else raise duplicate_event

module _ {P W : Type 0} where
  -- `OutboxService::new`
  abbrev pub new : OutboxWriter P W → OutboxConfig P → OutboxService P W
  new writer config = record { writer = writer; config = config; idempotency_storage = none }

  -- `OutboxService::with_idempotency`
  abbrev pub with_idempotency :
      OutboxWriter P W → OutboxConfig P → IdempotencyStorageProvider W → OutboxService P W
  with_idempotency writer config storage = record {
    writer = writer;
    config = config;
    idempotency_storage = some storage;
  }

  unfoldable pub add_event :
      Runtime W
      → OutboxService P W
      → String
      → P
      → Option String
      → Exec W (Option (Event P))
      → Exec W (Unit {0})
  add_event rt s event_type payload provided_token get_event = do
    text ← invoke rt s.config.idempotency_strategy provided_token get_event
    let i_token = Option.map IdempotencyToken.new text
    reserve s.idempotency_storage i_token
    event ← effect (new_event rt (EventType.new event_type) (Payload.new payload) i_token)
    s.writer.insert_event event
