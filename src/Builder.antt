-- ===== src/Builder.antt =====
-- outbox-core/src/builder.rs. `dlq` says whether the feature of that name is on.
pub mod Build
use oxide_outbox.Prelude.{Bool, true, false, Option, none, some, String}
use oxide_outbox.Exec.{Outcome, ok, err, panicked, config_error}
use oxide_outbox.Runtime.{Shutdown}
use oxide_outbox.Config.{OutboxConfig}
use oxide_outbox.Traits.{OutboxStorage, Transport, DlqHeap}
use oxide_outbox.Manager
use oxide_outbox.Manager.{OutboxManager}

pub record OutboxManagerBuilder (P W : Type 0) : Type 0 where
  pub storage : Option (OutboxStorage P W)
  pub publisher : Option (Transport P W)
  pub config : Option (OutboxConfig P)
  pub shutdown_rx : Option (Shutdown W)
  pub dlq_heap : Option (DlqHeap W)

-- `field.ok_or_else(|| OutboxError::ConfigError(…))?`, and what follows.
abbrev pub required : {A B : Type 0} → Option A → String → (A → Outcome B) → Outcome B
required none message next = err (config_error message)
required (some a) message next = next a

module _ {P W : Type 0} where
  -- `OutboxManagerBuilder::new` and `Default::default`
  abbrev pub new : OutboxManagerBuilder P W
  new = record {
    storage = none;
    publisher = none;
    config = none;
    shutdown_rx = none;
    dlq_heap = none;
  }

  abbrev pub storage : OutboxStorage P W → OutboxManagerBuilder P W → OutboxManagerBuilder P W
  storage s b = record b { storage = some s }

  abbrev pub publisher : Transport P W → OutboxManagerBuilder P W → OutboxManagerBuilder P W
  publisher p b = record b { publisher = some p }

  abbrev pub config : OutboxConfig P → OutboxManagerBuilder P W → OutboxManagerBuilder P W
  config c b = record b { config = some c }

  abbrev pub shutdown_rx : Shutdown W → OutboxManagerBuilder P W → OutboxManagerBuilder P W
  shutdown_rx rx b = record b { shutdown_rx = some rx }

  abbrev pub dlq_heap : DlqHeap W → OutboxManagerBuilder P W → OutboxManagerBuilder P W
  dlq_heap heap b = record b { dlq_heap = some heap }

  -- The heap of the manager: required under the feature, and no field of it otherwise.
  abbrev pub required_heap :
      Bool
      → Option (DlqHeap W)
      → (Option (DlqHeap W) → Outcome (OutboxManager P W))
      → Outcome (OutboxManager P W)
  required_heap true heap next = required heap "Dlq heap config is missing" (λ h. next (some h))
  required_heap false heap next = next none

  unfoldable pub build : Bool → OutboxManagerBuilder P W → Outcome (OutboxManager P W)
  build dlq b = required b.storage "Storage config is missing" λ s.
      required b.publisher "Publisher config is missing" λ p.
        required b.config "Config config is missing" λ c. required_heap dlq b.dlq_heap λ heap.
          required b.shutdown_rx "Shutdown channel is missing" λ rx. ok (Manager.new s p c heap rx)
