-- ===== src/System/Delivery/Recovery.antt =====
-- What a killed worker had claimed, delivered by another.
use oxide_outbox.Prelude.{
  ℕ, ◌≤◌, ◌<◌, false, ◌≡◌, ◌∙◌, subst, Memᴰ, List, [], length, arith, In_of_keep, In-of_All,
}
use oxide_outbox.Prelude.Int.{pos}
use oxide_outbox.Exec.{ok}
use oxide_outbox.Runtime.{Shutdown}
use oxide_outbox.Model.{Event}
use oxide_outbox.Config.{OutboxConfig}
use oxide_outbox.Manager.{drain}
use oxide_outbox.Loop.{go_on}
use oxide_outbox.Processor.Delivered.{IsTopic, IsSmooth}
use oxide_outbox.Postgres.Sql.{Db, uuid_of}
use oxide_outbox.Postgres.{candidates, selected, fetch_next_to_process}
use oxide_outbox.Postgres.Fetch.{Keyed}
use oxide_outbox.Postgres.Fetch.Claims.{until, claimed_rows, Keyed-claim, fetch_ok, fetch-ClaimOf}
use oxide_outbox.Postgres.Fetch.Selection.{Claimable}
use oxide_outbox.System.{measured}
use oxide_outbox.System.Cluster.{Site}
use oxide_outbox.System.Cluster.Runs.Worker.{site_worker}
use oxide_outbox.System.Delivery.Rows.{Cleared, IsAwaited}
use oxide_outbox.System.Delivery.Backlog.{drain-delivers}

module _ {P : Type 0} (config : OutboxConfig P) (limit : ℕ) (db : Db P) (es : List (Event P))
    (h : (fetch_next_to_process config limit db).0 ≡ ok es) where
  -- What a fetch returned stands in the table.
  returned-row : (e : Event P) → Memᴰ e es → Memᴰ e (fetch_next_to_process config limit db).1.rows
  returned-row e i =
      let (returned, rows, _, _, _) = fetch_ok config limit db es h in
      rw rows ((In_of_keep _ e (claimed_rows config limit db) (subst (λ l. Memᴰ e l) returned i)).0)

  -- Its lock runs out.
  returned-Claimable :
      (e : Event P) (v : Db P)
      → Keyed db.rows
      → Memᴰ e es
      → until config limit db < v.now
      → v.row_locked (uuid_of e) ≡ false
      → Claimable v e
  returned-Claimable e v keyed i late free =
      let (old, _, _, q) = In-of_All _ es (fetch-ClaimOf config limit db es keyed h).0 e i in
      (rw q (ground arith), free)

module _ {P X : Type 0} (s : Site P X) (rx : Shutdown (Db P × X)) (took : X → Event P → Type 0)
    (c : IsTopic took s.transport s.heap s.metrics) (smooth : IsSmooth s.transport s.heap) where
  -- Recovery: when a worker was killed after a fetch that returned `es`, before it marked any of
  -- them, then once its locks have run out the inner loop of any worker, with more rounds than there
  -- are rows to claim, ends by an empty batch, and every event of `es` that the broker takes whenever
  -- it is asked has reached the broker, and is `Sent` in the table. Until then no other task has
  -- changed the rows, and nobody holds one. A batch has room for one row, the lock time is not
  -- negative, no shutdown is signalled, no statement fails, the heap answers, and while the loop runs
  -- the server's clock stands still and no other task acts. The broker may refuse the other events,
  -- and does not panic. The table has a primary key.
  pub drain-recovers :
      (config : OutboxConfig P) (limit : ℕ) (db : Db P) (es : List (Event P))
      → (fetch_next_to_process config limit db).0 ≡ ok es
      → Keyed db.rows
      → (mins fuel : ℕ) (w : Db P × X) → w.0.rows ≡ (fetch_next_to_process config limit db).1.rows
      → until config limit db < w.0.now
      → ((k : ℕ) → w.0.row_locked k ≡ false)
      → s.config.lock_timeout_mins ≡ pos mins
      → 1 ≤ s.config.batch_size
      → ((v : Db P × X) → rx.value v ≡ false)
      → w.0.faults ≡ []
      → length (candidates w.0) < fuel
      → let done = drain (measured s.metrics) (site_worker s rx) fuel w in
        (done.0 ≡ go_on)
        × ((e : Event P) → Memᴰ e es → IsAwaited s.transport e → Cleared took e done.1)
  drain-recovers config limit db es h keyed mins fuel w rows late free lock room quiet calm enough =
      let (_, left, _, _, _) = fetch_ok config limit db es h in
      let still : Keyed w.0.rows =
        rw (rows ∙ left) (Keyed-claim (selected limit db) (until config limit db) db.rows keyed) in
      let (flow, clears) =
        drain-delivers s rx took c smooth mins fuel w lock room quiet calm still enough in
      (
        flow,
        (λ e i awaited.
            clears e (rw rows (returned-row config limit db es h e i))
              (returned-Claimable config limit db es h e w.0 keyed i late (free (uuid_of e)))
              awaited),
      )
