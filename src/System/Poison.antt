-- ===== src/System/Poison.antt =====
-- From the failures that outbox-core/src/processor.rs notes to the dead letters of
-- outbox-postgres/src/lib.rs, by way of outbox-core/src/dlq/processor.rs.
use oxide_outbox.Prelude.{
  ℕ, ◌≤◌, Bool, false, not, ◌≡◌, sym, subst, ◌∙◌, ap, inl, inr, Option, List, map, keep, Memᴰ,
  contains, arith, Bool-cases, contains-map, In_of_keep,
}
use oxide_outbox.Exec.{ok}
use oxide_outbox.Runtime.{Shutdown, Metrics}
use oxide_outbox.Model.{Event, DlqEntry}
use oxide_outbox.Config.{OutboxConfig}
use oxide_outbox.Traits.{Transport, DlqHeap}
use oxide_outbox.Heap.{Counts, IsHeap, to_u32}
use oxide_outbox.Processor
use oxide_outbox.Processor.{OutboxProcessor}
use oxide_outbox.Processor.Counting.{IsJudged}
use oxide_outbox.Processor.Refused.{Refused, Refused-counts}
use oxide_outbox.Reaper.{reap}
use oxide_outbox.Postgres.Sql.{Db, DeadLetter, uuid_of}
use oxide_outbox.Postgres.{failure_count_column, postgres_outbox, quarantine_events}
use oxide_outbox.System.{lifted, stored, carried}
use oxide_outbox.System.Reap.{is_due, reaper, drained, reap-Reaped}

module _ {P X : Type 0} where
  abbrev pub counts_of : (X → Counts) → Db P × X → Counts
  counts_of counts w = counts w.1

  abbrev pub batcher : OutboxConfig P → Transport P X → OutboxProcessor P (Db P × X)
  batcher config transport =
      Processor.new (stored (postgres_outbox config)) (carried transport) config

module _ {P X : Type 0} (config : OutboxConfig P) (most : ℕ) (counts : X → Counts)
    (heap : DlqHeap X) (h : IsHeap most counts heap) where
  lifted-IsHeap : IsHeap most (counts_of {P = P} counts) (lifted heap)
  lifted-IsHeap = record {
    fails = λ id w. h.fails id w.1;
    succeeds = λ id w. h.succeeds id w.1;
    drains = λ n w. h.drains n w.1;
    returns = λ n w. h.returns n w.1;
  }

  dropped :
      (u : ℕ) (x : X) (rows : List (Event P))
      → 1 ≤ counts x u
      → config.dlq_threshold ≤ counts x u
      → contains (map uuid_of (keep (λ e. not (is_due config.dlq_threshold (counts x) e)) rows)) u
        ≡ false
  dropped u x rows one over =
      let left : Event P → Bool = λ e. not (is_due config.dlq_threshold (counts x) e) in
      elim (Bool-cases (contains (map uuid_of (keep left rows)) u)) [
        | inl t ↦
            let (e, i, q) = contains-map uuid_of u (keep left rows) t in
            let (_, n) = In_of_keep left e rows i in
            let one' : 1 ≤ counts x (uuid_of e) = subst (λ j. 1 ≤ counts x j) (sym q) one in
            let over' : config.dlq_threshold ≤ counts x (uuid_of e) =
              subst (λ j. config.dlq_threshold ≤ counts x j) (sym q) over in
            absurd (ground arith)
        | inr f ↦ f
      ]

  -- An event that `dlq_threshold` batches or more, each `Ok`, have fetched and the broker refused,
  -- and whose count nobody else changed in between, is quarantined by a tick of the dead-letter task
  -- whose two calls return `Ok`: its row is gone from the outbox table, and stands among the dead
  -- letters with the count of its failures, cut to 32 bits. The storage is PostgreSQL, the heap
  -- keeps the contract of `DlqHeap` and its counter has room for the batches, only the heap touches
  -- the counts, the broker's verdict depends on the event alone, and the threshold is not 0.
  pub Refused-reaped :
      (rx : Shutdown (Db P × X)) (transport : Transport P X) (metrics : Option (Metrics (Db P × X)))
      (accepts : Event P → Bool)
      → IsJudged (counts_of counts) accepts (batcher config transport) metrics
      → (u k : ℕ) (start end now : Db P × X)
      → Refused most
          (counts_of counts)
          accepts
          (lifted heap)
          metrics
          (batcher config transport)
          u
          k
          start
          end
      → 1 ≤ config.dlq_threshold
      → config.dlq_threshold ≤ k
      → k ≤ most
      → counts now.1 u ≡ counts end.1 u
      → (fs : List DlqEntry) → (drained config heap now.1).0 ≡ ok fs
      → (quarantine_events fs now.0).0 ≡ ok tt
      → (e : Event P) → Memᴰ e now.0.rows
      → uuid_of e ≡ u
      → let after = (reap (reaper config heap rx) now).1.0 in
        (contains (map uuid_of after.rows) u ≡ false)
        × (k ≤ counts now.1 u)
        × ((l : DeadLetter P) × Memᴰ l after.dead
            × (l.event ≡ e)
            × (l.failure_count ≡ failure_count_column (to_u32 (counts now.1 u))))
  Refused-reaped rx transport metrics accepts c u k start end now refused one enough room same fs
        drain move e i q =
      let counted =
        Refused-counts most (counts_of counts) accepts (lifted heap) metrics
          (batcher config transport) u lifted-IsHeap c refused room in
      let (tables, _) = reap-Reaped config most counts heap h rx now in
      let moved = rw (drain, move) at tables in
      let kept : k ≤ counts now.1 u = subst (λ c. k ≤ c) (sym same) counted in
      let named : k ≤ counts now.1 (uuid_of e) = subst (λ j. k ≤ counts now.1 j) (sym q) kept in
      let (rows, _, letters) = moved in
      let (l, j, of, count, _) = letters e i (ground arith) in
      (
        rw rows (dropped u now.1 now.0.rows (omega arith) (omega arith)),
        kept,
        (l, j, of, count ∙ ap (λ v. failure_count_column (to_u32 (counts now.1 v))) q),
      )
