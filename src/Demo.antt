-- ===== src/Demo.antt =====
-- The programs under example: dlq-example, distributed-deduplication and outbox-in-memory. The
-- channel of `tokio` that stands for a broker is a parameter, as are the pool and the Redis client.
pub mod Programs
use text.Mathlib.Text.{◌==◌}
use oxide_outbox.Prelude.{String, true, false, Option, none, some, if◌then◌else◌}
use oxide_outbox.Prelude.Int.{pos}
use oxide_outbox.Exec.{
  Outcome, ok, err, panicked, Exec, infrastructure_error, pure, raise, effect, ◌>>=◌, ◌>>◌,
}
use oxide_outbox.Object.EventType
use oxide_outbox.Runtime.{Runtime, Shutdown}
use oxide_outbox.Model.{Event}
use oxide_outbox.Config.{OutboxConfig, provided, disabled}
use oxide_outbox.Traits.{
  OutboxStorage, OutboxWriter, Transport, IdempotencyStorageProvider, DlqHeap,
}
use oxide_outbox.Service
use oxide_outbox.Service.{OutboxService, add_event}
use oxide_outbox.Builder
use oxide_outbox.Builder.{build}
use oxide_outbox.Manager.{OutboxManager}
use oxide_outbox.Redis.{RedisTokenConfig, default_token_config}

-- `enum DemoEvent` and `enum MyEvent`
pub data DemoEvent : Type 0 where
  ping : String → DemoEvent

pub data MyEvent : Type 0 where
  hi_outbox : String → MyEvent

-- `UnboundedSender::send`: the text of the error, where the receiver is gone.
abbrev pub Sender : Type 0 → Type 0 → Type 0
Sender P W = Event P → W → Option String × W

-- `map_err(|e| InfrastructureError(e.to_string()))`
abbrev pub sent_or : {W : Type 0} → Option String → Exec W (Unit {0})
sent_or none = pure tt
sent_or (some message) = raise (infrastructure_error message)

-- An error of the second call is logged, and no more.
abbrev pub logged : Outcome (Unit {0}) → Outcome (Unit {0})
logged (ok u) = ok tt
logged (err e) = ok tt
logged (panicked s) = panicked s

module _ {P W : Type 0} where
  -- `TokioEventPublisher`
  abbrev pub tokio_publisher : Sender P W → Transport P W
  tokio_publisher send = record { publish = λ event. effect (send event) >>= sent_or }

  -- `FlakyPublisher`
  abbrev pub flaky_publisher : Sender P W → Transport P W
  flaky_publisher send = record {
    publish = λ event.
        if EventType.as_str event.event_type == "CursedPing"
        then raise (infrastructure_error "broker is on fire")
        else (effect (send event) >>= sent_or);
  }

abbrev pub dlq_config : OutboxConfig DemoEvent
dlq_config = record {
  batch_size = 100;
  retention_days = pos 1;
  gc_interval_secs = 60;
  poll_interval_secs = 2;
  lock_timeout_mins = pos 1;
  idempotency_strategy = disabled;
  dlq_threshold = 3;
  dlq_interval_secs = 5;
}

abbrev pub dlq_redis_config : RedisTokenConfig
dlq_redis_config = record default_token_config { key_prefix = "outbox_dlq_demo" }

abbrev pub deduplication_config : OutboxConfig MyEvent
deduplication_config = record {
  batch_size = 100;
  retention_days = pos 1;
  gc_interval_secs = 10;
  poll_interval_secs = 100;
  lock_timeout_mins = pos 1;
  idempotency_strategy = provided;
  dlq_threshold = 10;
  dlq_interval_secs = 300;
}

abbrev pub in_memory_config : OutboxConfig MyEvent
in_memory_config = record {
  batch_size = 100;
  retention_days = pos 1;
  gc_interval_secs = 10;
  poll_interval_secs = 100;
  lock_timeout_mins = pos 1;
  idempotency_strategy = disabled;
  dlq_threshold = 10;
  dlq_interval_secs = 300;
}

module _ {W : Type 0} where
  -- The manager of dlq-example, which is built with the feature `dlq`.
  abbrev pub dlq_manager :
      OutboxStorage DemoEvent W
      → Sender DemoEvent W
      → DlqHeap W
      → Shutdown W
      → Outcome (OutboxManager DemoEvent W)
  dlq_manager s send heap rx = build true (
      Builder.shutdown_rx rx (
        Builder.dlq_heap heap (
          Builder.config dlq_config
            (Builder.publisher (flaky_publisher send) (Builder.storage s Builder.new)))))

  -- The managers of the two other programs.
  abbrev pub my_manager :
      OutboxConfig MyEvent
      → OutboxStorage MyEvent W
      → Sender MyEvent W
      → Shutdown W
      → Outcome (OutboxManager MyEvent W)
  my_manager config s send rx = build false (
      Builder.shutdown_rx rx (
        Builder.config config
          (Builder.publisher (tokio_publisher send) (Builder.storage s Builder.new))))

  -- The two events of dlq-example.
  abbrev pub dlq_inserts : Runtime W → OutboxWriter DemoEvent W → Exec W (Unit {0})
  dlq_inserts rt writer =
      let service = Service.new writer dlq_config in
      add_event rt service "GoodPing" (ping "hello") none (pure none)
      >> add_event rt service "CursedPing" (ping "doom") none (pure none)

  -- The event that the two other programs add twice.
  abbrev pub hi : Runtime W → OutboxService MyEvent W → Exec W (Unit {0})
  hi rt service = add_event rt service "OrderCreated" (hi_outbox "Hi!") (some "r_token") (pure none)

  -- `between` is what happens while distributed-deduplication sleeps for 10 seconds.
  abbrev pub hi_twice : (W → W) → Runtime W → OutboxService MyEvent W → Exec W (Unit {0})
  hi_twice between rt service =
      hi rt service >> λ w. let (r, w') = hi rt service (between w) in (logged r, w')

  abbrev pub deduplication_inserts :
      (W → W)
      → Runtime W
      → OutboxWriter MyEvent W
      → IdempotencyStorageProvider W
      → Exec W (Unit {0})
  deduplication_inserts between rt writer redis =
      hi_twice between rt (Service.with_idempotency writer deduplication_config redis)

  abbrev pub in_memory_inserts : Runtime W → OutboxWriter MyEvent W → Exec W (Unit {0})
  in_memory_inserts rt writer = hi_twice (λ w. w) rt (Service.new writer in_memory_config)
