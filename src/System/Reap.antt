-- ===== src/System/Reap.antt =====
-- A tick of the dead-letter task of outbox-core/src/dlq/processor.rs on the storage of
-- outbox-postgres/src/lib.rs, with any heap that keeps its contract.
use oxide_outbox.Prelude.{
  ◌≤◌, ℕ, Bool, true, not, ◌&&◌, ◌≡◌, refl, sym, subst, ◌∙◌, ap, fun_ext, inl, inr, List, [], ◌∷◌,
  keep, Memᴰ, leb, arith, Bool-cases, contains-map,
}
use oxide_outbox.Exec.{Outcome, ok, err, panicked}
use oxide_outbox.Exec.Laws.{Outcome-cases}
use oxide_outbox.Runtime.{Shutdown}
use oxide_outbox.Model.{Event, DlqEntry}
use oxide_outbox.Config.{OutboxConfig}
use oxide_outbox.Traits.{DlqHeap}
use oxide_outbox.Heap.{Counts, Counted, IsDrained, IsHeap, after_drain, to_u32}
use oxide_outbox.Loop.{swallow}
use oxide_outbox.Reaper
use oxide_outbox.Reaper.{DlqProcessor, quarantine, reap}
use oxide_outbox.Postgres.Sql.{Db, DeadLetter, uuid_of}
use oxide_outbox.Postgres.{failure_count_column, postgres_outbox, quarantine_events}
use oxide_outbox.Postgres.Quarantine.{
  entry_uuid, is_named, letter, quarantine_events-moves, quarantine_events-atomic,
  quarantine_events-Returns,
}
use oxide_outbox.System.{on_first, lifted, stored}

-- The events that a heap tracks and whose count has reached the threshold.
abbrev pub is_due : {P : Type 0} → ℕ → Counts → Event P → Bool
is_due threshold counts e = leb 1 (counts (uuid_of e)) && leb threshold (counts (uuid_of e))

-- Both tables as before.
abbrev pub Untouched : {P : Type 0} → Db P → Db P → Type 0
Untouched db db' = (db'.rows ≡ db.rows) × (db'.dead ≡ db.dead)

abbrev pub Moved : {P : Type 0} → ℕ → Counts → Db P → Db P → Type 0
Moved {P} threshold counts db db' =
    (db'.rows ≡ keep (λ e. not (is_due threshold counts e)) db.rows)
    × ((l : DeadLetter P) → Memᴰ l db.dead → Memᴰ l db'.dead)
    × ((e : Event P)
        → Memᴰ e db.rows
        → is_due threshold counts e ≡ true
        → (l : DeadLetter P) × Memᴰ l db'.dead
          × (l.event ≡ e)
          × (l.failure_count ≡ failure_count_column (to_u32 (counts (uuid_of e))))
          × (l.quarantined_at ≡ db.now))

-- What a tick does to the tables, by the outcomes of its two calls.
abbrev pub Reaped : {P A B : Type 0} → Outcome A → Outcome B → ℕ → Counts → Db P → Db P → Type 0
Reaped (ok a) (ok b) threshold counts db db' = Moved threshold counts db db'
Reaped _ _ threshold counts db db' = Untouched db db'

-- The entries of a drain.
abbrev pub entries_of : Outcome (List DlqEntry) → List DlqEntry
entries_of (ok es) = es
entries_of (err x) = []
entries_of (panicked m) = []

is_named-due :
    {P : Type 0} (threshold : ℕ) (counts : Counts) (fs : List DlqEntry) (e : Event P)
    → IsDrained threshold counts fs
    → is_named fs e ≡ is_due threshold counts e
is_named-due threshold counts fs e d = elim (Bool-cases (is_named fs e)) [
  | inl t ↦
      let (f, i, q) = contains-map entry_uuid (uuid_of e) fs t in
      let (one, reached, _) = d.due f i in
      let tracked : 1 ≤ counts (uuid_of e) = subst (λ u. 1 ≤ counts u) q one in
      let over : threshold ≤ counts (uuid_of e) = subst (λ u. threshold ≤ counts u) q reached in
      t ∙ sym (ground arith)
  | inr n ↦
      n
      ∙ sym (elim (Bool-cases (is_due threshold counts e)) [
        | inl due ↦ (let named = d.all (uuid_of e) (ground arith) (ground arith) in cc)
        | inr other ↦ other
      ])
]

pub swallow-world : {A W : Type 0} (r : Outcome A × W) → (swallow r).1 ≡ r.1
swallow-world (ok a, w) = refl
swallow-world (err x, w) = refl
swallow-world (panicked m, w) = refl

nothing : {P : Type 0} (db : Db P) → Untouched db (quarantine_events [] db).1
unfolding quarantine_events
nothing db = (refl, refl)

module _ {P X : Type 0} (config : OutboxConfig P) (heap : DlqHeap X) where
  abbrev pub reaper : Shutdown (Db P × X) → DlqProcessor P (Db P × X)
  reaper rx = Reaper.new (lifted heap) (stored (postgres_outbox config)) config rx

  abbrev pub drained : X → Outcome (List DlqEntry) × X
  drained x = heap.drain_exceeded config.dlq_threshold x

module _ {P X : Type 0} (config : OutboxConfig P) (heap : DlqHeap X)
    (rx : Shutdown (Db P × X)) where
  -- The tick leaves what its two calls leave; a drain without entries is as good as a failed one.
  pub reap-left :
      (w : Db P × X)
      → (reap (reaper config heap rx) w).1 ≡ (
        (quarantine_events (entries_of (drained config heap w.1).0) w.0).1,
        (drained config heap w.1).1,
      )
  unfolding reap quarantine_events
  reap-left w = elim (Outcome-cases (drained config heap w.1).0) [
    | inl ([], q) ↦ rw q refl
    | inl (f ∷ fs, q) ↦
        rw q
          (swallow-world (on_first (quarantine_events (f ∷ fs)) (w.0, (drained config heap w.1).1)))
    | inr (inl (x, q)) ↦ rw q refl
    | inr (inr (m, q)) ↦ rw q refl
  ]

module _ {P X : Type 0} (config : OutboxConfig P) (most : ℕ) (counts : X → Counts)
    (heap : DlqHeap X) (h : IsHeap most counts heap) (rx : Shutdown (Db P × X)) where
  Moved-drained :
      (fs : List DlqEntry) (db : Db P) (x : X) (u : Unit {0})
      → (drained config heap x).0 ≡ ok fs
      → (quarantine_events fs db).0 ≡ ok u
      → Moved config.dlq_threshold (counts x) db (quarantine_events fs db).1
  Moved-drained fs db x u q t =
      let d = h.returns config.dlq_threshold x fs q in
      let same = is_named-due config.dlq_threshold (counts x) fs in
      let (_, rows, dead, letters) = quarantine_events-moves fs db u t in
      (
        rows ∙ ap (λ f. keep f db.rows) (fun_ext λ e. ap not (same e d)),
        dead,
        (λ e i due.
            let (f, j, id, k) = letters e i (same e d ∙ due) in
            let (_, _, count) = d.due f j in
            (
              letter db.now e f,
              k,
              refl,
              ap failure_count_column (count ∙ ap (λ n. to_u32 (counts x n)) id),
              refl,
            )),
      )

  -- A tick of the dead-letter task on PostgreSQL, with any heap that keeps the contract of `DlqHeap`.
  -- If the drain and the quarantine return `Ok`, every row whose event the heap tracks with a count
  -- that has reached `dlq_threshold` has left the outbox table for the dead letters, with that count
  -- cut to 32 bits and the server's time, and no other row has moved. If one of them fails, both
  -- tables are as before. The heap has forgotten what it returned as soon as the drain
  -- returned `Ok`, also where the quarantine then failed.
  pub reap-Reaped :
      (w : Db P × X)
      → let done = reap (reaper config heap rx) w in
        let taken = drained config heap w.1 in
        Reaped taken.0
          (quarantine_events (entries_of taken.0) w.0).0
          config.dlq_threshold
          (counts w.1)
          w.0
          done.1.0
        × Counted (λ _. after_drain config.dlq_threshold) (counts w.1) taken.0 (counts done.1.1)
  reap-Reaped w =
      rw (reap-left config heap rx w)
        (tables (drained config heap w.1).0 refl, h.drains config.dlq_threshold w.1)
    where
      tables :
          (r : Outcome (List DlqEntry))
          → (drained config heap w.1).0 ≡ r
          → Reaped r
              (quarantine_events (entries_of r) w.0).0
              config.dlq_threshold
              (counts w.1)
              w.0
              (quarantine_events (entries_of r) w.0).1
      tables (ok fs) q = elim (Outcome-cases (quarantine_events fs w.0).0) [
        | inl (u, t) ↦ rw t (Moved-drained fs w.0 w.1 u q t)
        | inr (inl (x, t)) ↦ rw t (quarantine_events-atomic fs w.0 x t)
        | inr (inr (m, t)) ↦ absurd (quarantine_events-Returns fs w.0 m t)
      ]
      tables (err x) q = nothing w.0
      tables (panicked m) q = nothing w.0
