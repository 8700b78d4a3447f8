-- ===== src/Runtime.antt =====
-- What the crate takes from its libraries and cannot be read here: the generators of `uuid`, the
-- clock of `time`, the `watch` channel of `tokio` and the `metrics` facade, as operations on the
-- world. Every definition that uses one takes it as an argument.
use oxide_outbox.Prelude.{ℕ, String, Bool, List}

-- A timestamp is a count of microseconds from 4713 BC, where those of PostgreSQL begin.
abbrev pub Timestamp : Type 0
Timestamp = ℕ

pub record Runtime (W : Type 0) : Type 0 where
  -- `Uuid::new_v4`
  pub new_v4 : W → ℕ × W
  -- `Uuid::now_v7`
  pub now_v7 : W → ℕ × W
  -- `Uuid::to_string`
  pub uuid_text : ℕ → String
  -- `OffsetDateTime::now_utc`
  pub now_utc : W → Timestamp × W

-- `watch::Receiver<bool>`, read at the time of the call.
pub record Shutdown (W : Type 0) : Type 0 where
  -- `*rx.borrow()`
  pub value : W → Bool
  -- `rx.has_changed().is_err()`: the sender is gone.
  pub closed : W → Bool

-- `metrics::counter!(name, labels).increment(1)` and `metrics::histogram!(name, labels).record(…)`;
-- the recorded duration is a float that no code of the crate reads.
pub record Metrics (W : Type 0) : Type 0 where
  pub increment : String → List (String × String) → W → W
  pub observe : String → List (String × String) → W → W
