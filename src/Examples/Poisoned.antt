-- ===== src/Examples/Poisoned.antt =====
-- A worker and the dead-letter task over a database and the Redis server of `Examples.Counters`. The
-- broker refuses every event with payload 1, and two failures are enough.
use mathlib.Core.List.Memᴰ.{head, tail}
use oxide_outbox.Prelude.{
  ℕ, Bool, false, not, ◌+◌, ◌≤◌, ◌≡◌, refl, none, List, [], ◌∷◌, map, Memᴰ, contains, ◌==◌, arith,
  if◌then◌else◌,
}
use oxide_outbox.Exec.{ok, err, broker_error}
use oxide_outbox.Runtime.{Shutdown}
use oxide_outbox.Model.{Event, pending, processing, sent}
use oxide_outbox.Config.{OutboxConfig, default_config}
use oxide_outbox.Traits.{Transport, DlqHeap}
use oxide_outbox.Heap.{IsHeap, after_drain, Counted}
use oxide_outbox.Processor.{process_pending_events, event_publish}
use oxide_outbox.Processor.Counting.{IsJudged}
use oxide_outbox.Processor.Refused.{Refused, never, again, Refuses, batch}
use oxide_outbox.Reaper.{reap}
use oxide_outbox.Postgres.Sql.{Db, DeadLetter, uuid_of}
use oxide_outbox.Postgres.{fetch_next_to_process, update_status, quarantine_events}
use oxide_outbox.Redis.{call, redis_heap, drain_exceeded}
use oxide_outbox.Redis.Drain.{entry}
use oxide_outbox.Redis.Counts.{score, last_exact, redis_heap-IsHeap}
use oxide_outbox.System.{lifted}
use oxide_outbox.System.Reap.{reaper, drained, entries_of, Reaped, reap-Reaped}
use oxide_outbox.System.Poison.{counts_of, batcher, Refused-reaped}
use oxide_outbox.Gc
use oxide_outbox.Loop.{Turn}
use oxide_outbox.Reaper
use oxide_outbox.System.Spared.{Spared, dlq_run-spares}
use oxide_outbox.Examples.Batch.{event}
use oxide_outbox.Examples.Cache.{strokes, codecs, codecs-IsCodec}
use oxide_outbox.Examples.Counters.{
  Server, provider, scores, empty, provider-IsSortedSet, provider-IsCounting,
}

abbrev config : OutboxConfig ℕ
config = record default_config { dlq_threshold = 2 }

abbrev heap : DlqHeap Server
heap = redis_heap codecs provider

abbrev counts : Server → ℕ → ℕ
counts w = score (scores w)

heap-IsHeap : IsHeap last_exact counts heap
heap-IsHeap =
    redis_heap-IsHeap provider codecs strokes scores codecs-IsCodec provider-IsSortedSet
      provider-IsCounting

abbrev accepts : Event ℕ → Bool
accepts e = not (e.payload.inner == 1)

abbrev broker : Transport ℕ Server
broker = record {
  publish = λ e x. if accepts e then (ok tt, x) else (err (broker_error "refused"), x);
}

abbrev rx : Shutdown (Db ℕ × Server)
rx = record { value = λ w. false; closed = λ w. false }

broker-IsJudged : IsJudged (counts_of counts) accepts (batcher config broker) none
broker-IsJudged = record {
  verdict = λ e w. ground arith;
  at_publish = λ e w. ground arith;
  at_fetch = λ n w. refl;
  at_update = λ ids st w. refl;
  at_success_metrics = λ ty w. refl;
  at_error_metrics = λ ty w. refl;
}

abbrev db : Db ℕ
db = record {
  rows = event 1 pending 0 ∷ event 2 pending 0 ∷ [];
  dead = [];
  now = 1000000000000;
  faults = [];
  refusal = "duplicate key value violates unique constraint";
  row_locked = λ k. false;
  listener = none;
}

abbrev run_batch : Db ℕ × Server → Db ℕ × Server
run_batch w =
    (batch last_exact (counts_of counts) accepts (lifted heap) none (batcher config broker) 1 w).1

-- Ten minutes pass.
abbrev wait : Db ℕ × Server → Db ℕ × Server
wait w = (record w.0 { now = w.0.now + 600000000 }, w.1)

abbrev w0 : Db ℕ × Server
w0 = (db, empty)

abbrev w1 : Db ℕ × Server
w1 = wait (run_batch w0)

abbrev w2 : Db ℕ × Server
w2 = run_batch w1

abbrev first : List (Event ℕ)
first = event 1 processing 1000300000000 ∷ event 2 processing 1000300000000 ∷ []

abbrev second : List (Event ℕ)
second = event 1 processing 1000900000000 ∷ []

first-Refuses : Refuses accepts 1 first
first-Refuses e (head q) t = rw q refl
first-Refuses e (tail (head q)) t = cc
first-Refuses e (tail (tail i)) t = elim i [ ]

second-Refuses : Refuses accepts 1 second
second-Refuses e (head q) t = rw q refl
second-Refuses e (tail i) t = elim i [ ]

w2-Refused :
    Refused last_exact
      (counts_of counts)
      accepts
      (lifted heap)
      none
      (batcher config broker)
      1
      2
      w0
      w2
unfolding process_pending_events fetch_next_to_process event_publish update_status call
w2-Refused =
    again w1 second 1 (again w0 first 2 (never w0) refl refl refl refl first-Refuses) refl refl refl
      refl second-Refuses

Refused-reaped_example :
    let after = (reap (reaper config heap rx) w2).1.0 in
    (contains (map uuid_of after.rows) 1 ≡ false)
    × (2 ≤ counts w2.1 1)
    × ((l : DeadLetter ℕ) × Memᴰ l after.dead
        × (l.event ≡ event 1 processing 1000900000000)
        × (l.failure_count ≡ 2))
unfolding process_pending_events fetch_next_to_process event_publish update_status call
    quarantine_events drain_exceeded
Refused-reaped_example =
    Refused-reaped config last_exact counts heap heap-IsHeap rx broker none accepts broker-IsJudged
      1 2 w0 w2 w2 w2-Refused (ground arith) (ground arith) (ground arith) refl (entry (1, 2) ∷ [])
      refl refl (event 1 processing 1000900000000) (head refl) refl

reap-Reaped_example :
    let done = reap (reaper config heap rx) w2 in
    let taken = drained config heap w2.1 in
    Reaped taken.0 (quarantine_events (entries_of taken.0) w2.0).0 2 (counts w2.1) w2.0 done.1.0
    × Counted (λ _. after_drain 2) (counts w2.1) taken.0 (counts done.1.1)
reap-Reaped_example = reap-Reaped config last_exact counts heap heap-IsHeap rx w2

abbrev ticks : List (Turn Gc.Arm (Db ℕ × Server))
ticks =
    record { others = wait; arm = Gc.tick }
    ∷ record { others = wait; arm = Gc.changed }
    ∷ record { others = wait; arm = Gc.tick }
    ∷ []

dlq_run-spares_example :
    Spared 2 counts (event 2 sent 1000300000000) (Reaper.run (reaper config heap rx) ticks w2).1
unfolding process_pending_events fetch_next_to_process event_publish update_status call
dlq_run-spares_example =
    dlq_run-spares config last_exact counts heap heap-IsHeap rx (event 2 sent 1000300000000) ticks
      w2 ((λ v s. s), ((λ v s. s), ((λ v s. s), tt)))
      (((refl, (refl, tt)), tail (head refl)), omega arith)
