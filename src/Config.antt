-- ===== src/Config.antt =====
-- outbox-core/src/config.rs and outbox-core/src/idempotency/strategy.rs.
use oxide_outbox.Prelude.{ℕ, String, Option, none, some}
use oxide_outbox.Prelude.Int.{ℤ, pos}
use oxide_outbox.Exec.{Exec, pure, effect, expect, ◌>>=◌}
use oxide_outbox.Runtime.{Runtime}
use oxide_outbox.Model.{Event}

-- The names carry the source's: `Provided`, `Custom(fn(&Event<P>) -> String)`, `Uuid`, `None`.
pub data IdempotencyStrategy (P : Type 0) : Type 0 where
  provided : IdempotencyStrategy P
  custom : (Event P → String) → IdempotencyStrategy P
  uuid : IdempotencyStrategy P
  disabled : IdempotencyStrategy P

pub record OutboxConfig (P : Type 0) : Type 0 where
  pub batch_size : ℕ  -- u32
  pub retention_days : ℤ  -- i64
  pub gc_interval_secs : ℕ  -- u64
  pub poll_interval_secs : ℕ  -- u64
  pub lock_timeout_mins : ℤ  -- i64
  pub idempotency_strategy : IdempotencyStrategy P
  pub dlq_threshold : ℕ  -- u32
  pub dlq_interval_secs : ℕ  -- u64

-- `OutboxConfig::default`
abbrev pub default_config : {P : Type 0} → OutboxConfig P
default_config = record {
  batch_size = 100;
  retention_days = pos 7;
  gc_interval_secs = 3600;
  poll_interval_secs = 10;
  lock_timeout_mins = pos 5;
  idempotency_strategy = disabled;
  dlq_threshold = 10;
  dlq_interval_secs = 300;
}

-- `IdempotencyStrategy::invoke`. The caller's closure `get_event` is an action: it may read or
-- change the world, and is run by one branch only.
unfoldable pub invoke :
    {P W : Type 0}
    → Runtime W
    → IdempotencyStrategy P
    → Option String
    → Exec W (Option (Event P))
    → Exec W (Option String)
invoke rt provided provided_token get_event = pure provided_token
invoke rt (custom f) provided_token get_event = do
  context ← get_event
  event ← expect "Strategy is Custom, but no Event context provided" context
  pure (some (f event))
invoke rt uuid provided_token get_event = do id ← effect rt.now_v7; pure (some (rt.uuid_text id))
invoke rt disabled provided_token get_event = pure none
