-- ===== src/Model.antt =====
-- outbox-core/src/model.rs and outbox-core/src/dlq/model.rs: the outbox row, its life cycle and the
-- dead-letter entry.
use oxide_outbox.Prelude.{ℕ, ◌*◌, String, Bool, true, false, Option}
use oxide_outbox.Object.EventId.{EventId, load}
use oxide_outbox.Object.IdempotencyToken.{IdempotencyToken}
use oxide_outbox.Object.EventType.{EventType}
use oxide_outbox.Object.Payload.{Payload}
use oxide_outbox.Runtime.{Timestamp, Runtime}

pub data EventStatus : Type 0 where
  pending processing sent : EventStatus

-- The derived `PartialEq`.
abbrev pub is_status : EventStatus → EventStatus → Bool
is_status pending pending = true
is_status processing processing = true
is_status sent sent = true
is_status _ _ = false

pub record Event (P : Type 0) : Type 0 where
  pub id : EventId
  pub idempotency_token : Option IdempotencyToken
  pub event_type : EventType
  pub payload : Payload P
  pub created_at : Timestamp
  pub locked_until : Timestamp
  pub status : EventStatus

-- `OffsetDateTime::UNIX_EPOCH`: Julian day 2440588.
unfoldable pub unix_epoch : Timestamp
unix_epoch = 2440588 * 86400000000

-- `Event::new`: the identifier is drawn first, then the clock is read.
unfoldable pub new_event :
    {P W : Type 0} → Runtime W → EventType → Payload P → Option IdempotencyToken → W → Event P × W
new_event rt event_type payload token w =
    let (uuid, w1) = rt.new_v4 w in
    let (now, w2) = rt.now_utc w1 in
    (
      record {
        id = load uuid;
        idempotency_token = token;
        event_type = event_type;
        payload = payload;
        created_at = now;
        locked_until = unix_epoch;
        status = pending;
      },
      w2,
    )

pub record DlqEntry : Type 0 where
  pub id : EventId
  pub failure_count : ℕ  -- u32
  pub last_error : Option String

-- `DlqEntry::new`
abbrev pub new_entry : EventId → ℕ → Option String → DlqEntry
new_entry id failure_count last_error = record {
  id = id;
  failure_count = failure_count;
  last_error = last_error;
}
