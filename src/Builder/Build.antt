-- ===== src/Builder/Build.antt =====
-- `OutboxManagerBuilder::build` in builder.rs against the list of what it requires.
use oxide_outbox.Prelude.{
  Bool, true, false, ◌≡◌, refl, Option, none, some, List, [], ◌∷◌, String, if◌then◌else◌,
}
use oxide_outbox.Exec.{Outcome, ok, err, config_error}
use oxide_outbox.Runtime.{Shutdown}
use oxide_outbox.Config.{OutboxConfig}
use oxide_outbox.Traits.{OutboxStorage, Transport, DlqHeap}
use oxide_outbox.Manager.{OutboxManager}
use oxide_outbox.Builder.{OutboxManagerBuilder, build}

abbrev pub is_none : {A : Type 0} → Option A → Bool
is_none none = true
is_none (some a) = false

-- What must be set, with the message for each, in the order of the documentation's list, but that
-- the heap comes before the shutdown channel.
abbrev pub requirements : {P W : Type 0} → Bool → OutboxManagerBuilder P W → List (Bool × String)
requirements dlq b =
    (is_none b.storage, "Storage config is missing")
    ∷ (is_none b.publisher, "Publisher config is missing")
    ∷ (is_none b.config, "Config config is missing")
    ∷ ((if dlq then is_none b.dlq_heap else false), "Dlq heap config is missing")
    ∷ (is_none b.shutdown_rx, "Shutdown channel is missing")
    ∷ []

abbrev pub first_missing : List (Bool × String) → Option String
first_missing [] = none
first_missing ((missing, message) ∷ rest) = if missing then some message else first_missing rest

-- The manager of a complete builder holds what was set.
pub record IsAssembled {P W : Type 0} (dlq : Bool) (b : OutboxManagerBuilder P W)
    (m : OutboxManager P W) : Type 0 where
  pub storage_set : b.storage ≡ some m.storage
  pub publisher_set : b.publisher ≡ some m.publisher
  pub config_set : b.config ≡ some m.config
  pub shutdown_set : b.shutdown_rx ≡ some m.shutdown_rx
  pub heap_set : m.dlq_heap ≡ (if dlq then b.dlq_heap else none)

-- The result that the list of requirements calls for.
abbrev pub Built :
    {P W : Type 0}
    → Bool
    → OutboxManagerBuilder P W
    → Option String
    → Outcome (OutboxManager P W)
    → Type 0
Built {P} {W} dlq b none r = (m : OutboxManager P W) × (r ≡ ok m) × IsAssembled dlq b m
Built dlq b (some message) r = r ≡ err (config_error message)

-- The same, field by field.
from_fields :
    {P W : Type 0} (dlq : Bool) (s : Option (OutboxStorage P W)) (p : Option (Transport P W))
    (c : Option (OutboxConfig P)) (heap : Option (DlqHeap W)) (rx : Option (Shutdown W))
    → let b : OutboxManagerBuilder P W = record {
      storage = s;
      publisher = p;
      config = c;
      shutdown_rx = rx;
      dlq_heap = heap;
    } in
      Built dlq b (first_missing (requirements dlq b)) (build dlq b)
unfolding build
from_fields dlq none p c heap rx = refl
from_fields dlq (some s) none c heap rx = refl
from_fields dlq (some s) (some p) none heap rx = refl
from_fields true (some s) (some p) (some c) none rx = refl
from_fields true (some s) (some p) (some c) (some heap) none = refl
from_fields true (some s) (some p) (some c) (some heap) (some rx) = (
  _,
  refl,
  record {
    storage_set = refl;
    publisher_set = refl;
    config_set = refl;
    shutdown_set = refl;
    heap_set = refl;
  },
)
from_fields false (some s) (some p) (some c) heap none = refl
from_fields false (some s) (some p) (some c) heap (some rx) = (
  _,
  refl,
  record {
    storage_set = refl;
    publisher_set = refl;
    config_set = refl;
    shutdown_set = refl;
    heap_set = refl;
  },
)

-- `build` never panics: it returns a `ConfigError` with the message of the first requirement that
-- is not met, or, when all are, a manager with exactly the collaborators that were set. The heap is
-- required, and passed on, under the feature `dlq` only.
pub build-Built :
    {P W : Type 0} (dlq : Bool) (b : OutboxManagerBuilder P W)
    → Built dlq b (first_missing (requirements dlq b)) (build dlq b)
unfolding build
build-Built dlq b = from_fields dlq b.storage b.publisher b.config b.dlq_heap b.shutdown_rx
