-- ===== src/Examples/Worker.antt =====
-- The worker on the database of `Examples.Tables`, with a broker that counts what it takes and
-- refuses every event with payload 1.
use oxide_outbox.Prelude.{
  ℕ, suc, ◌<◌, refl, false, none, some, [], ◌==◌, length, arith, if◌then◌else◌,
}
use oxide_outbox.Exec.{ok, err, broker_error, pure}
use oxide_outbox.Runtime.{Shutdown}
use oxide_outbox.Traits.{Transport, DlqHeap}
use oxide_outbox.Processor.Aside.{IsSteady}
use oxide_outbox.Loop.Stopping.{Survives}
use oxide_outbox.Manager.{drain}
use oxide_outbox.Postgres.Sql.{Db}
use oxide_outbox.Postgres.{candidates}
use oxide_outbox.System.{carried, heaped, worker}
use oxide_outbox.System.Drain.{worker_drains}
use oxide_outbox.Examples.Tables.{config, db}

abbrev broker : Transport ℕ ℕ
broker = record {
  publish = λ e taken.
      if e.payload.inner == 1 then (err (broker_error "refused"), taken) else (ok tt, suc taken);
}

abbrev heap : DlqHeap ℕ
heap = record {
  record_failure = λ id. pure tt;
  record_success = λ id. pure tt;
  drain_exceeded = λ n. pure [];
}

abbrev rx : Shutdown (Db ℕ × ℕ)
rx = record { value = λ w. false; closed = λ w. false }

broker-IsSteady : IsSteady (carried {A = Db ℕ} broker) (heaped (some heap))
broker-IsSteady = record {
  publishes = λ e w s. ground arith;
  successes = λ id w s. cc;
  failures = λ id w s. cc;
}

few : length (candidates db) < 9
unfolding candidates
few = omega arith

worker_drains_example :
    let done = drain none (worker config broker (some heap) rx) 9 (db, 0) in
    Survives rx done.0 done.1
worker_drains_example =
    worker_drains config broker (some heap) none rx 5 9 (db, 0) refl broker-IsSteady few
