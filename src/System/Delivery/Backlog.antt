-- ===== src/System/Delivery/Backlog.antt =====
-- The inner loop of manager.rs on PostgreSQL delivers the backlog, batch by batch.
use oxide_outbox.Prelude.{
  ℕ, zero, suc, ◌≤◌, ◌<◌, false, ◌≡◌, refl, ◌∙◌, ap, ◌⊎◌, inl, inr, [], map, Memᴰ, length, arith,
}
use oxide_outbox.Prelude.Int.{pos}
use oxide_outbox.Exec.{Outcome, ok, err, panicked}
use oxide_outbox.Object.EventId.{as_uuid}
use oxide_outbox.Runtime.{Shutdown}
use oxide_outbox.Model.{Event, sent}
use oxide_outbox.Manager.{after_batch, drain}
use oxide_outbox.Loop.{Flow, go_on}
use oxide_outbox.Processor.Delivered.{IsTopic, IsSmooth}
use oxide_outbox.Postgres.Sql.{Db}
use oxide_outbox.Postgres.{candidates, set_status}
use oxide_outbox.Postgres.Fetch.{Keyed}
use oxide_outbox.Postgres.Fetch.Claims.{Keyed-claim}
use oxide_outbox.Postgres.Fetch.Selection.{Claimable}
use oxide_outbox.Postgres.Schema.Rows.{Keyed-map}
use oxide_outbox.Postgres.Schema.Reach.{set_status-IsKeyKeeping}
use oxide_outbox.System.{measured}
use oxide_outbox.System.Drain.{batch-shrinks}
use oxide_outbox.System.Delivery.{site_batch, claimed, site_batch-Published}
use oxide_outbox.System.Cluster.{Site}
use oxide_outbox.System.Cluster.Runs.Worker.{site_worker}
use oxide_outbox.System.Delivery.Rows.{
  Cleared, Waiting, IsAwaited, Cleared-kept, Waiting-moves, claimed-some,
}

-- What follows a batch that returned `Ok`.
after_batch-post :
    {W : Type 0} (Q : Flow × W → Type 0) (r : Outcome ℕ × W) (again : W → Flow × W) (n : ℕ)
    → r.0 ≡ ok n
    → (n ≡ 0 → Q (go_on, r.1))
    → ((m : ℕ) → n ≡ suc m → Q (again r.1))
    → Q (after_batch r again)
after_batch-post Q (ok zero, w) again n h none_left more = none_left (ground arith)
after_batch-post Q (ok (suc m), w) again n h none_left more = more m (ground arith)
after_batch-post Q (err x, w) again n h none_left more = cc
after_batch-post Q (panicked m, w) again n h none_left more = cc

module _ {P X : Type 0} (s : Site P X) (rx : Shutdown (Db P × X)) (took : X → Event P → Type 0)
    (c : IsTopic took s.transport s.heap s.metrics) (smooth : IsSmooth s.transport s.heap) where
  Keyed-batch : (w : Db P × X) → w.0.faults ≡ [] → Keyed w.0.rows → Keyed (site_batch s w).1.0.rows
  Keyed-batch w calm keyed =
      let (_, ids, marked, _) = site_batch-Published s rx took c smooth w calm in
      rw (marked.marked_rows) (
        Keyed-map (set_status (map as_uuid ids) sent)
          (set_status-IsKeyKeeping (map as_uuid ids) sent) _ (Keyed-claim _ _ w.0.rows keyed))

  -- The flow and the world that a drain from `w` leaves: every awaited event has been cleared.
  abbrev Empties : Db P × X → Flow × (Db P × X) → Type 0
  Empties w done =
      (done.0 ≡ go_on)
      × ((e : Event P)
          → IsAwaited s.transport e
          → Cleared took e w ⊎ Waiting e w
          → Cleared took e done.1)

  drain-Empties :
      (mins fuel : ℕ) (w : Db P × X)
      → s.config.lock_timeout_mins ≡ pos mins
      → 1 ≤ s.config.batch_size
      → ((v : Db P × X) → rx.value v ≡ false)
      → w.0.faults ≡ []
      → Keyed w.0.rows
      → length (candidates w.0) < fuel
      → Empties w (drain (measured s.metrics) (site_worker s rx) fuel w)
  unfolding drain
  drain-Empties mins zero w lock room quiet calm keyed enough = absurd (omega arith)
  drain-Empties mins (suc fuel) w lock room quiet calm keyed enough =
      let (done, _, _, (calm', _, _, _)) = site_batch-Published s rx took c smooth w calm in
      rw (quiet w) (
        after_batch-post (Empties w) (site_batch s w)
          (λ v. drain (measured s.metrics) (site_worker s rx) fuel v)
          (length (claimed s rx took c smooth w.0)) done
          (λ empty. (
            refl,
            (λ e awaited now. elim now [
              | inl cleared ↦ Cleared-kept s rx took c smooth e w calm keyed cleared
              | inr (i, can) ↦
                  absurd (
                    omega
                      (arith, empty, claimed-some s.config s.config.batch_size w.0 e room i can))
            ]),
          ))
          (λ m more.
            let (flow, clears) =
              drain-Empties mins fuel (site_batch s w).1 lock room quiet calm'
                (Keyed-batch w calm keyed)
                (omega (
                  arith,
                  batch-shrinks s.config s.transport s.heap s.metrics rx mins w m lock
                      (done ∙ ap ok more),
                )) in
            (
              flow,
              (λ e awaited now. clears e awaited (elim now [
                | inl cleared ↦ inl (Cleared-kept s rx took c smooth e w calm keyed cleared)
                | inr waiting ↦ Waiting-moves s rx took c smooth e w calm awaited waiting
              ])),
            )))

  -- The worker's inner loop delivers the backlog, however many batches that takes: with more rounds
  -- than there are rows to claim, it ends by an empty batch, and every row that could be claimed when
  -- it began, and whose event the broker takes whenever it is asked, has reached the broker, in
  -- processing and locked for some time, and is `Sent` in the table, and otherwise as it was. A batch
  -- has room for one row, the lock time is not negative, no shutdown is signalled, no statement
  -- fails, the heap answers, and while the loop runs the server's clock stands still and no other
  -- task acts. The broker may refuse the other events, and does not panic. The table has a primary
  -- key.
  pub drain-delivers :
      (mins fuel : ℕ) (w : Db P × X)
      → s.config.lock_timeout_mins ≡ pos mins
      → 1 ≤ s.config.batch_size
      → ((v : Db P × X) → rx.value v ≡ false)
      → w.0.faults ≡ []
      → Keyed w.0.rows
      → length (candidates w.0) < fuel
      → let done = drain (measured s.metrics) (site_worker s rx) fuel w in
        (done.0 ≡ go_on)
        × ((e : Event P)
            → Memᴰ e w.0.rows
            → Claimable w.0 e
            → IsAwaited s.transport e
            → Cleared took e done.1)
  drain-delivers mins fuel w lock room quiet calm keyed enough =
      let (flow, clears) = drain-Empties mins fuel w lock room quiet calm keyed enough in
      (flow, (λ e i can awaited. clears e awaited (inr (i, can))))
