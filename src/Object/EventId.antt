-- ===== src/Object/EventId.antt =====
-- outbox-core/src/object.rs, `EventId`. A `Uuid` is the 128-bit number that it is; the generators
-- of the `uuid` crate are in `oxide_outbox.Runtime`.
use oxide_outbox.Prelude.{ℕ}

pub record EventId : Type 0 where
  pub uuid : ℕ

abbrev pub load : ℕ → EventId
load id = record { uuid = id }

abbrev pub as_uuid : EventId → ℕ
as_uuid id = id.uuid
