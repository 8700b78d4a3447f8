-- ===== src/Postgres/Schema/Bounds.antt =====
-- The column `failure_count INTEGER` of `outbox_dead_letters`, under every statement of
-- outbox-postgres/src/lib.rs.
use oxide_outbox.Prelude.{
  ℕ, ◌≤◌, String, inl, inr, Option, Option-cases, Bool-cases, List, [], ◌∷◌, ◌++◌, map, keep, All,
  All-append, contains, arith, ◌==◌,
}
use oxide_outbox.Object.EventId.{as_uuid}
use oxide_outbox.Object.Payload
use oxide_outbox.Runtime.{Timestamp}
use oxide_outbox.Model.{Event, DlqEntry}
use oxide_outbox.Postgres.Statement.{statement_keeps}
use oxide_outbox.Postgres.Sql.{Db, DeadLetter, uuid_of, i32_max, any_duplicate}
use oxide_outbox.Postgres.Writer.{insert_event, insert_row}
use oxide_outbox.Postgres.{
  failure_count_column, join_entries, join_all, dead_id, fetch_next_to_process, fetch_rows,
  update_status, delete_garbage, delete_rows, quarantine_events, move_rows,
}
use oxide_outbox.Postgres.Schema.Reach.{
  Step, inserted, fetched, updated, cleaned, waited, quarantined, elsewhere, Reach, here, next,
}
use oxide_outbox.Postgres.Schema.Invariant.{wait_for_notification-listener}

-- The count fits the column.
abbrev Fits : {P : Type 0} → DeadLetter P → Type 0
Fits l = l.failure_count ≤ i32_max

-- The count of an entry, cut to the column.
failure_count_column-bound : (n : ℕ) → failure_count_column n ≤ i32_max
failure_count_column-bound n = ground arith

module _ {P : Type 0} where
  abbrev pub AllFit : Db P → Type 0
  AllFit db = All Fits db.dead

  join_entries-Fits :
      (now : Timestamp) (d : Event P) (fs : List DlqEntry) → All Fits (join_entries now d fs)
  join_entries-Fits now d [] = tt
  join_entries-Fits now d (f ∷ fs) = elim (Bool-cases (uuid_of d == as_uuid f.id)) [
    | inl t ↦ rw t (failure_count_column-bound f.failure_count, join_entries-Fits now d fs)
    | inr n ↦ rw n (join_entries-Fits now d fs)
  ]

  join_all-Fits :
      (now : Timestamp) (ds : List (Event P)) (fs : List DlqEntry) → All Fits (join_all now ds fs)
  join_all-Fits now [] fs = tt
  join_all-Fits now (d ∷ ds) fs =
      All-append Fits (join_entries now d fs) (join_all now ds fs) (join_entries-Fits now d fs)
        (join_all-Fits now ds fs)

  move_rows-AllFit : (fs : List DlqEntry) (db : Db P) → AllFit db → AllFit (move_rows fs db).1
  unfolding move_rows
  move_rows-AllFit fs db h =
      let named =
        keep (λ e. contains (map (λ (f : DlqEntry). as_uuid f.id) fs) (uuid_of e)) db.rows in
      let letters = join_all db.now named fs in
      elim (Bool-cases (any_duplicate (map dead_id (letters ++ db.dead)))) [
        | inl t ↦ rw t h
        | inr n ↦ rw n (All-append Fits letters db.dead (join_all-Fits db.now named fs) h)
      ]

  quarantine_events-AllFit :
      (fs : List DlqEntry) (db : Db P) → AllFit db → AllFit (quarantine_events fs db).1
  unfolding quarantine_events
  quarantine_events-AllFit [] db h = h
  quarantine_events-AllFit (f ∷ fs) db h =
      statement_keeps AllFit (λ d faults t. t) (move_rows (f ∷ fs)) (move_rows-AllFit (f ∷ fs)) db h

  insert_row-AllFit : (e : Event P) (db : Db P) → AllFit db → AllFit (insert_row e db).1
  unfolding insert_row
  insert_row-AllFit e db h = ground arith

  insert_event-AllFit :
      (to_value : Payload.Payload P → Option String) (e : Event P) (db : Db P)
      → AllFit db
      → AllFit (insert_event to_value e db).1
  unfolding insert_event
  insert_event-AllFit to_value e db h = elim (Option-cases (to_value e.payload)) [
    | inl q ↦
        rw (q, insert_event)
          (statement_keeps AllFit (λ d faults t. t) (insert_row e) (insert_row-AllFit e) db h)
    | inr (m, q) ↦ rw (q, insert_event) h
  ]

module _ {P : Type 0} (to_value : Payload.Payload P → Option String) where
  Step-AllFit : {db db' : Db P} → Step P to_value db db' → AllFit db → AllFit db'
  unfolding fetch_next_to_process fetch_rows update_status delete_garbage delete_rows
  Step-AllFit (inserted e db) h = insert_event-AllFit to_value e db h
  Step-AllFit (fetched config limit db) h =
      statement_keeps AllFit (λ d faults t. t) (fetch_rows limit config.lock_timeout_mins)
        (λ d t. t) db h
  Step-AllFit (updated ids st db) h = statement_keeps AllFit (λ d faults t. t) _ (λ d t. t) db h
  Step-AllFit (cleaned config db) h =
      statement_keeps AllFit (λ d faults t. t) (delete_rows config.retention_days) (λ d t. t) db h
  Step-AllFit (waited channel db) h =
      let (_, dead, _, _) = wait_for_notification-listener channel db in rw dead h
  Step-AllFit (quarantined fs db) h = quarantine_events-AllFit fs db h
  Step-AllFit (elsewhere db db' rows dead) h = rw dead h

  -- Every dead letter's count fits its 32-bit column: from a table where this holds, every sequence
  -- of the adapter's operations, with any entries, however large their counts, and any outcomes and
  -- faults in between, leads to one where it holds.
  pub Reach-AllFit : {start db : Db P} → Reach P to_value start db → AllFit start → AllFit db
  Reach-AllFit here h = h
  Reach-AllFit (next r step) h = Step-AllFit step (Reach-AllFit r h)
