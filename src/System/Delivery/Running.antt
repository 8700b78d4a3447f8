-- ===== src/System/Delivery/Running.antt =====
-- From an accepted `add_event` of service.rs to the broker, by way of a run of the worker loop of
-- manager.rs on PostgreSQL.
use mathlib.Core.List.Memᴰ.{head}
use oxide_outbox.Prelude.{
  ℕ, ◌≤◌, ◌<◌, String, false, ◌≡◌, refl, Option, List, [], ◌∷◌, Memᴰ, All, All-map, length,
}
use oxide_outbox.Prelude.Int.{pos}
use oxide_outbox.Exec.{ok, Exec}
use oxide_outbox.Object.EventType
use oxide_outbox.Runtime.{Shutdown, Timestamp}
use oxide_outbox.Model.{Event, processing}
use oxide_outbox.Loop.{Turn, run_loop}
use oxide_outbox.Loop.Stopping.{resume_onward}
use oxide_outbox.Manager
use oxide_outbox.Manager.{drain}
use oxide_outbox.Processor.Delivered.{IsTopic, IsSmooth, IsWelcome}
use oxide_outbox.Service.AddEvent.{Fresh, TokenOf}
use oxide_outbox.Postgres.Sql.{Db, uuid_of}
use oxide_outbox.Postgres.{candidates}
use oxide_outbox.Postgres.Fetch.{Keyed}
use oxide_outbox.Postgres.Fetch.Selection.{Claimable}
use oxide_outbox.System.{measured}
use oxide_outbox.System.Cluster.{Site, site_add_event}
use oxide_outbox.System.Cluster.Produce.{add_event-leaves}
use oxide_outbox.System.Cluster.Runs.Worker.{site_worker}
use oxide_outbox.System.Delivery.Rows.{IsAwaited}
use oxide_outbox.System.Delivery.Backlog.{drain-delivers}
use oxide_outbox.System.Delivery.Kept.{run-Took}

-- The broker has taken the event, in processing and locked for some time.
abbrev pub Published : {P X : Type 0} → (X → Event P → Type 0) → Event P → Db P × X → Type 0
Published took e w =
    (until : Timestamp) × took w.1 (record e { status = processing; locked_until = until })

-- No fault is ahead, nobody holds a row, the primary key holds, and the fuel is above the number of
-- rows to claim.
pub record IsCalm {P : Type 0} (fuel : ℕ) (db : Db P) : Type 0 where
  pub faultless : db.faults ≡ []
  pub free : (k : ℕ) → db.row_locked k ≡ false
  pub keyed : Keyed db.rows
  pub enough : length (candidates db) < fuel

-- What another task does takes nothing back from the broker.
abbrev pub IsKeeping : {P X : Type 0} → (X → Event P → Type 0) → (Db P × X → Db P × X) → Type 0
IsKeeping {P} {X} took g = (f : Event P) (v : Db P × X) → took v.1 f → took (g v).1 f

module _ {P X : Type 0} (s : Site P X) (rx : Shutdown (Db P × X)) (took : X → Event P → Type 0)
    (c : IsTopic took s.transport s.heap s.metrics) (smooth : IsSmooth s.transport s.heap) where
  run-Published :
      (mins fuel : ℕ) (t : Turn Manager.Arm (Db P × X)) (ts : List (Turn Manager.Arm (Db P × X)))
      (w : Db P × X) (e : Event P)
      → s.config.lock_timeout_mins ≡ pos mins
      → 1 ≤ s.config.batch_size
      → ((v : Db P × X) → rx.value v ≡ false)
      → t.arm ≡ Manager.tick
      → IsCalm fuel (t.others w).0
      → All (λ u. IsKeeping took u.others) ts
      → Memᴰ e (t.others w).0.rows
      → Claimable (t.others w).0 e
      → IsAwaited s.transport e
      → Published took e (Manager.run (measured s.metrics) (site_worker s rx) fuel (t ∷ ts) w).1
  unfolding Manager.run Manager.round run_loop
  run-Published mins fuel t ts w e lock room quiet ticks calm others i can awaited =
      let (flow, clears) =
        drain-delivers s rx took c smooth mins fuel (t.others w) lock room quiet calm.faultless
          calm.keyed calm.enough in
      let (until, taken, _) = clears e i can awaited in
      let round = Manager.round (measured s.metrics) (site_worker s rx) fuel in
      let drained = drain (measured s.metrics) (site_worker s rx) fuel (t.others w) in
      let f : Event P = record e { status = processing; locked_until = until } in
      let kept =
        run-Took s took c f rx fuel ts
          (All-map (λ u. IsKeeping took u.others)
            (λ u. (v : Db P × X) → took v.1 f → took (u.others v).1 f) (λ u h v. h f v) ts others)
          drained.1 taken in
      rw ticks (rw (resume_onward drained (λ v. run_loop round ts v) flow) (until, kept))

  -- The program from end to end: when an `add_event` has returned `Ok`, and the worker loop then runs,
  -- with a tick as its first turn, the broker has taken, at the end of the run, whatever its further
  -- turns are, an event with the type and the payload that were given and the token of the strategy,
  -- in processing and locked for some time. When the first tick comes the other tasks have left the
  -- rows as they were, the fuel is above the number of rows to claim, no statement will fail, no
  -- other transaction holds a row, and the table has a primary key; the clock may have moved. A
  -- batch has room for one row, the lock time is not negative, no shutdown is signalled, the heap
  -- answers, the broker takes every event of that type, may refuse others, and does not panic, and
  -- no other task takes anything back from it.
  pub run-publishes :
      (mins fuel : ℕ) (event_type : String) (payload : P) (given : Option String)
      (get_event : Exec X (Option (Event P))) (w : Db P × X) (t : Turn Manager.Arm (Db P × X))
      (ts : List (Turn Manager.Arm (Db P × X)))
      → let made = site_add_event s event_type payload given get_event w in
        let left = (Manager.run (measured s.metrics) (site_worker s rx) fuel (t ∷ ts) made.1).1 in
        made.0 ≡ ok tt
        → (t.others made.1).0.rows ≡ made.1.0.rows
        → IsCalm fuel (t.others made.1).0
        → s.config.lock_timeout_mins ≡ pos mins
        → 1 ≤ s.config.batch_size
        → ((v : Db P × X) → rx.value v ≡ false)
        → t.arm ≡ Manager.tick
        → All (λ u. IsKeeping took u.others) ts
        → ((e : Event P) → e.event_type ≡ EventType.new event_type → IsWelcome s.transport e)
        → (e : Event P) × Fresh event_type payload e
          × TokenOf s.config.idempotency_strategy given e.idempotency_token
          × Published took e left
  run-publishes mins fuel event_type payload given get_event w t ts h rows calm lock room quiet
        ticks others welcome =
      let (e, fresh, token, left) = add_event-leaves s event_type payload given get_event w h in
      let (status, _, event_type_of, _) = fresh in
      (
        e,
        fresh,
        token,
        run-Published mins fuel t ts _ e lock room quiet ticks calm others
            (rw (rows, left) (head refl)) (rw status refl, calm.free (uuid_of e))
            (λ until. welcome _ event_type_of),
      )
