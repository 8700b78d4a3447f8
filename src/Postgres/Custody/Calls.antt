-- ===== src/Postgres/Custody/Calls.antt =====
-- Custody through the calls of outbox-postgres/src/lib.rs, whatever they return.
use oxide_outbox.Prelude.{
  ℕ, String, true, ◌≡◌, ◌≢◌, inl, inr, Option, Option-cases, List, [], ◌∷◌, map, contains,
}
use oxide_outbox.Exec.{Outcome}
use oxide_outbox.Object.EventId.{EventId, as_uuid}
use oxide_outbox.Object.Payload
use oxide_outbox.Model.{Event, sent, DlqEntry}
use oxide_outbox.Config.{OutboxConfig}
use oxide_outbox.Postgres.Sql.{Db, statement}
use oxide_outbox.Postgres.Statement.{statement_keeps}
use oxide_outbox.Postgres.Writer.{insert_event, insert_row}
use oxide_outbox.Postgres.{
  fetch_next_to_process, fetch_rows, update_status, delete_garbage, delete_rows, quarantine_events,
  move_rows,
}
use oxide_outbox.Postgres.Custody.{
  InCustody, fetch_rows-InCustody, update_rows-InCustody, insert_row-InCustody,
}
use oxide_outbox.Postgres.Custody.Removal.{delete_rows-InCustody, move_rows-InCustody}

module _ {P : Type 0} (D : ℕ → Type 0) (k : ℕ) where
  call-InCustody :
      {A : Type 0} (run : Db P → Outcome A × Db P)
      → ((db : Db P) → InCustody D k db → InCustody D k (run db).1)
      → (db : Db P) → InCustody D k db
      → InCustody D k (statement run db).1
  call-InCustody run h db i = statement_keeps (InCustody D k) (λ d faults t. t) run h db i

  pub fetch-InCustody :
      (config : OutboxConfig P) (limit : ℕ) (db : Db P)
      → InCustody D k db
      → InCustody D k (fetch_next_to_process config limit db).1
  unfolding fetch_next_to_process
  fetch-InCustody config limit db h =
      call-InCustody (fetch_rows limit config.lock_timeout_mins)
        (fetch_rows-InCustody D limit config.lock_timeout_mins k) db h

  pub update-InCustody :
      (ids : List EventId) (db : Db P)
      → ((j : ℕ) → contains (map as_uuid ids) j ≡ true → D j)
      → InCustody D k db
      → InCustody D k (update_status ids sent db).1
  unfolding update_status
  update-InCustody ids db d h =
      call-InCustody _ (λ v i. update_rows-InCustody D (map as_uuid ids) k v d i) db h

  pub delete-InCustody :
      (config : OutboxConfig P) (db : Db P)
      → InCustody D k db
      → InCustody D k (delete_garbage config db).1
  unfolding delete_garbage
  delete-InCustody config db h =
      call-InCustody (delete_rows config.retention_days)
        (delete_rows-InCustody D config.retention_days k) db h

  pub quarantine-InCustody :
      (fs : List DlqEntry) (db : Db P)
      → InCustody D k db
      → InCustody D k (quarantine_events fs db).1
  unfolding quarantine_events
  quarantine-InCustody [] db h = h
  quarantine-InCustody (f ∷ fs) db h =
      call-InCustody (move_rows (f ∷ fs)) (move_rows-InCustody D (f ∷ fs) k) db h

  pub insert-InCustody :
      (to_value : Payload.Payload P → Option String) (e : Event P) (db : Db P)
      → e.status ≢ sent
      → InCustody D k db
      → InCustody D k (insert_event to_value e db).1
  unfolding insert_event
  insert-InCustody to_value e db fresh h = elim (Option-cases (to_value e.payload)) [
    | inl q ↦
        rw (q, insert_event)
          (call-InCustody (insert_row e) (λ v i. insert_row-InCustody D e k v fresh i) db h)
    | inr (m, q) ↦ rw (q, insert_event) h
  ]
