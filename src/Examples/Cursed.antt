-- ===== src/Examples/Cursed.antt =====
-- The dead-letter program of example/dlq-example, on PostgreSQL and the Redis server of
-- `Examples.Counters`: the cursed event fails in three batches, and is quarantined.
use mathlib.Core.List.Memᴰ.{head, tail}
use text.Mathlib.Text.{◌==◌}
use oxide_outbox.Prelude.{
  ℕ, Bool, false, not, ◌≤◌, ◌≡◌, refl, inl, inr, none, some, List, [], ◌∷◌, map, Memᴰ, contains,
  Bool-cases, arith,
}
use oxide_outbox.Object.EventId.{load}
use oxide_outbox.Object.EventType
use oxide_outbox.Object.Payload
use oxide_outbox.Runtime.{Shutdown}
use oxide_outbox.Model.{Event, EventStatus, pending, processing, sent}
use oxide_outbox.Traits.{Transport, DlqHeap}
use oxide_outbox.Heap.{IsHeap}
use oxide_outbox.Processor.{process_pending_events, event_publish}
use oxide_outbox.Processor.Counting.{IsJudged}
use oxide_outbox.Processor.Refused.{Refused, never, again, Refuses}
use oxide_outbox.Reaper.{reap}
use oxide_outbox.Postgres.Sql.{Db, DeadLetter, uuid_of}
use oxide_outbox.Postgres.{fetch_next_to_process, update_status, quarantine_events}
use oxide_outbox.Redis.{call, redis_heap, drain_exceeded}
use oxide_outbox.Redis.Drain.{entry}
use oxide_outbox.Redis.Counts.{score, last_exact, redis_heap-IsHeap}
use oxide_outbox.System.{lifted}
use oxide_outbox.System.Reap.{reaper}
use oxide_outbox.System.Poison.{counts_of, batcher, Refused-reaped}
use oxide_outbox.Demo.{DemoEvent, ping, Sender, flaky_publisher, dlq_config}
use oxide_outbox.Examples.Cache.{strokes, codecs, codecs-IsCodec}
use oxide_outbox.Examples.Counters.{
  Server, provider, scores, provider-IsSortedSet, provider-IsCounting,
}

abbrev World : Type 0
World = Db DemoEvent × Server

abbrev heap : DlqHeap Server
heap = redis_heap codecs provider

abbrev counts : Server → ℕ → ℕ
counts w = score (scores w)

heap-IsHeap : IsHeap last_exact counts heap
heap-IsHeap =
    redis_heap-IsHeap provider codecs strokes scores codecs-IsCodec provider-IsSortedSet
      provider-IsCounting

-- The receiver of the channel is there.
abbrev send : Sender DemoEvent Server
send e x = (none, x)

abbrev broker : Transport DemoEvent Server
broker = flaky_publisher send

abbrev accepts : Event DemoEvent → Bool
accepts e = not (EventType.as_str e.event_type == "CursedPing")

broker-IsJudged : IsJudged (counts_of counts) accepts (batcher dlq_config broker) none
broker-IsJudged = record {
  verdict = λ e w. elim (Bool-cases (EventType.as_str e.event_type == "CursedPing")) [
    | inl t ↦ rw t refl
    | inr n ↦ rw n refl
  ];
  at_publish = λ e w. elim (Bool-cases (EventType.as_str e.event_type == "CursedPing")) [
    | inl t ↦ rw t refl
    | inr n ↦ rw n refl
  ];
  at_fetch = λ n w. refl;
  at_update = λ ids st w. refl;
  at_success_metrics = λ ty w. refl;
  at_error_metrics = λ ty w. refl;
}

abbrev good : EventStatus → ℕ → Event DemoEvent
good status lock = record {
  id = load 1;
  idempotency_token = none;
  event_type = EventType.new "GoodPing";
  payload = Payload.new (ping "hello");
  created_at = 1;
  locked_until = lock;
  status = status;
}

abbrev cursed : EventStatus → ℕ → Event DemoEvent
cursed status lock = record {
  id = load 2;
  idempotency_token = none;
  event_type = EventType.new "CursedPing";
  payload = Payload.new (ping "doom");
  created_at = 1;
  locked_until = lock;
  status = status;
}

abbrev world : ℕ → List (Event DemoEvent) → Server → World
world now rows server = (
  record {
    rows = rows;
    dead = [];
    now = now;
    faults = [];
    refusal = "duplicate key value violates unique constraint";
    row_locked = λ k. false;
    listener = none;
  },
  server,
)

-- The world before each batch, and before the tick of the dead-letter task; the set holds the
-- scores less 1.
abbrev w0 : World
w0 =
    world 1000000000000 (cursed pending 0 ∷ good pending 0 ∷ [])
      (record { set = []; distinct = refl })

abbrev w1 : World
w1 =
    world 1000600000000 (cursed processing 1000060000000 ∷ good sent 1000060000000 ∷ [])
      (record { set = (2, 0) ∷ []; distinct = refl })

abbrev w2 : World
w2 =
    world 1001200000000 (cursed processing 1000660000000 ∷ good sent 1000060000000 ∷ [])
      (record { set = (2, 1) ∷ []; distinct = refl })

abbrev w3 : World
w3 =
    world 1001300000000 (cursed processing 1001260000000 ∷ good sent 1000060000000 ∷ [])
      (record { set = (2, 2) ∷ []; distinct = refl })

abbrev batch : World → World
batch w = (process_pending_events (some (lifted heap)) none (batcher dlq_config broker) w).1

-- Between the batches only time passes.
abbrev Follows : World → World → Type 0
Follows w v = (v.0.rows ≡ (batch w).0.rows) × (v.1.set ≡ (batch w).1.set)

only_time : Follows w0 w1 × Follows w1 w2 × Follows w2 w3
unfolding process_pending_events fetch_next_to_process event_publish update_status call
only_time = ((refl, refl), (refl, refl), (refl, refl))

w0-Refuses :
    Refuses accepts 2 (cursed processing 1000060000000 ∷ good processing 1000060000000 ∷ [])
w0-Refuses e (head q) t = rw q refl
w0-Refuses e (tail (head q)) t = cc
w0-Refuses e (tail (tail i)) t = elim i [ ]

one-Refuses : (lock : ℕ) → Refuses accepts 2 (cursed processing lock ∷ [])
one-Refuses lock e (head q) t = rw q refl
one-Refuses lock e (tail i) t = elim i [ ]

w2-Refused :
    Refused last_exact
      (counts_of counts)
      accepts
      (lifted heap)
      none
      (batcher dlq_config broker)
      2
      3
      w0
      (batch w2)
unfolding process_pending_events fetch_next_to_process event_publish update_status call
w2-Refused =
    again w2 (cursed processing 1001260000000 ∷ []) 1
      (again w1 (cursed processing 1000660000000 ∷ []) 1
        (again w0 (cursed processing 1000060000000 ∷ good processing 1000060000000 ∷ []) 2
          (never w0) refl refl refl refl w0-Refuses)
        refl refl refl refl (one-Refuses 1000660000000))
      refl refl refl refl (one-Refuses 1001260000000)

abbrev rx : Shutdown World
rx = record { value = λ w. false; closed = λ w. false }

quarantined :
    let after = (reap (reaper dlq_config heap rx) w3).1.0 in
    (contains (map uuid_of after.rows) 2 ≡ false)
    × (3 ≤ counts w3.1 2)
    × ((l : DeadLetter DemoEvent) × Memᴰ l after.dead
        × (l.event ≡ cursed processing 1001260000000)
        × (l.failure_count ≡ 3))
unfolding process_pending_events fetch_next_to_process event_publish update_status call
    quarantine_events drain_exceeded
quarantined =
    Refused-reaped dlq_config last_exact counts heap heap-IsHeap rx broker none accepts
      broker-IsJudged 2 3 w0 (batch w2) w3 w2-Refused (ground arith) (ground arith) (ground arith)
      refl (entry (2, 3) ∷ []) refl refl (cursed processing 1001260000000) (head refl) refl
