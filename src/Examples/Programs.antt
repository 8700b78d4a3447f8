-- ===== src/Examples/Programs.antt =====
-- The programs under example, run to their ends. While a program sleeps, the worker that it has
-- started runs for one round; the broker counts what it receives.
use oxide_outbox.Prelude.{ℕ, suc, String, ◌≡◌, refl, false, Option, none, some, [], ◌∷◌, map}
use oxide_outbox.Runtime.{Runtime}
use oxide_outbox.Model.{Event, EventStatus, sent, new_event}
use oxide_outbox.Config.{invoke}
use oxide_outbox.Service.{add_event, reserve}
use oxide_outbox.Manager
use oxide_outbox.Manager.{drain}
use oxide_outbox.Processor.{process_pending_events, event_publish, publish_all, settle, mark}
use oxide_outbox.Postgres.Sql.{Db}
use oxide_outbox.Postgres.{postgres_outbox, fetch_next_to_process, update_status}
use oxide_outbox.Postgres.Writer.{insert_event}
use oxide_outbox.System.{stored}
use oxide_outbox.Exec.{display}
use oxide_outbox.Redis.{RedisClient}
use oxide_outbox.Examples.Cache.{codecs}
use oxide_outbox.Demo.{MyEvent, Sender, in_memory_config, tokio_publisher}
use oxide_outbox.Demo.Programs.{
  Platform, Ended, returned, failed, in_memory_main, deduplication_main, dlq_main,
}

abbrev World : Type 0 → Type 0
World P = Db P × (ℕ × ℕ)

abbrev runtime : {P : Type 0} → Runtime (World P)
runtime = record {
  new_v4 = λ w. (w.1.0, (w.0, (suc w.1.0, w.1.1)));
  now_v7 = λ w. (w.1.0, w);
  uuid_text = λ n. "id";
  now_utc = λ w. (w.0.now, w);
}

abbrev send : {P : Type 0} → Sender P (World P)
send e w = (none, (w.0, (w.1.0, suc w.1.1)))

abbrev worker : Manager.OutboxManager MyEvent (World MyEvent)
worker =
    Manager.new (stored (postgres_outbox in_memory_config)) (tokio_publisher send) in_memory_config
      none (record { value = λ w. false; closed = λ w. false })

abbrev platform : {P : Type 0} → Option String → (World P → World P) → Platform P (World P)
platform refusal meanwhile = record {
  connect = λ url w. (refusal, w);
  to_value = λ payload. none;
  runtime = runtime;
  sender = send;
  shutdown_rx = record { value = λ w. false; closed = λ w. false };
  spawn_manager = λ m w. w;
  spawn_receiver = λ w. w;
  sleep = λ seconds. meanwhile;
  send_shutdown = λ w. (none, w);
  join_manager = λ seconds w. w;
  abort_receiver = λ w. w;
}

abbrev empty : {P : Type 0} → World P
empty = (
  record {
    rows = [];
    dead = [];
    now = 300000000000000000;
    faults = [];
    refusal = "duplicate key value violates unique constraint";
    row_locked = λ k. false;
    listener = none;
  },
  (1, 0),
)

-- outbox-in-memory ends without an error; its two events have been delivered.
abbrev one_round : World MyEvent → World MyEvent
one_round w = (Manager.run none worker 3 (record { others = λ v. v; arm = Manager.tick } ∷ []) w).1

abbrev ended : Ended × World MyEvent
ended = in_memory_main (platform none one_round) empty

both_delivered :
    (ended.0 ≡ returned)
    × (map (λ (e : Event MyEvent). e.status) ended.1.0.rows ≡ sent ∷ sent ∷ [])
    × (ended.1.1.1 ≡ 2)
unfolding in_memory_main add_event invoke reserve insert_event new_event Manager.run drain
    process_pending_events event_publish publish_all settle mark fetch_next_to_process update_status
    oxide_outbox.Builder.build Manager.round oxide_outbox.Model.unix_epoch
both_delivered = (refl, refl, refl)

-- Without a database it ends at once.
unconnected :
    in_memory_main (platform (some "connection refused") (λ w. w)) empty
    ≡ (failed "connection refused", empty)
unfolding in_memory_main
unconnected = refl

-- Without a Redis server the two other programs end before they have added an event.
abbrev client : RedisClient (ℕ × ℕ)
client = record { open_client = λ url. none; connect = λ url x. (none, x); build_cache = none }

no_deduplication :
    deduplication_main (platform none (λ w. w)) client empty
    ≡ (failed "Infrastructure error: Redis connection failed", empty)
unfolding deduplication_main display
no_deduplication = refl

no_dlq :
    dlq_main (platform none (λ w. w)) client codecs empty
    ≡ (failed "Infrastructure error: Redis connection failed", empty)
unfolding dlq_main display
no_dlq = refl
