-- ===== src/Postgres/Schema/Reach.antt =====
-- The databases that the adapter and the server's own changes can reach.
use oxide_outbox.Prelude.{
  ℕ, String, ◌≡◌, inl, inr, Option, Option-cases, Bool-cases, List, [], ◌∷◌, ◌++◌, map, keep,
  contains, arith,
}
use oxide_outbox.Prelude.Int.{ℤ, later}
use oxide_outbox.Exec.{Outcome}
use oxide_outbox.Object.EventId.{EventId, as_uuid}
use oxide_outbox.Object.Payload
use oxide_outbox.Model.{Event, EventStatus, DlqEntry}
use oxide_outbox.Config.{OutboxConfig}
use oxide_outbox.Postgres.Statement.{statement_keeps}
use oxide_outbox.Postgres.Sql.{Db, uuid_of, statement, any_duplicate}
use oxide_outbox.Postgres.Listener.{wait_for_notification}
use oxide_outbox.Postgres.Writer.{insert_event, insert_row}
use oxide_outbox.Postgres.{
  claim, selected, minute, join_all, set_status, fetch_next_to_process, fetch_rows, update_status,
  delete_garbage, quarantine_events, move_rows, dead_id,
}
use oxide_outbox.Postgres.Schema.{IsSchema}
use oxide_outbox.Postgres.Schema.Rows.{
  IsKeyKeeping, Keyed-keep, TokensUnique-keep, Keyed-map, TokensUnique-map,
}

pub claim-IsKeyKeeping :
    {P : Type 0} (ids : List ℕ) (until : ℕ) → IsKeyKeeping {P = P} (claim ids until)
claim-IsKeyKeeping ids until = record {
  same_uuid = λ e. ground arith;
  same_token = λ e. ground arith;
}

pub set_status-IsKeyKeeping :
    {P : Type 0} (ids : List ℕ) (st : EventStatus) → IsKeyKeeping {P = P} (set_status ids st)
set_status-IsKeyKeeping ids st = record {
  same_uuid = λ e. ground arith;
  same_token = λ e. ground arith;
}

-- A call of the adapter, whatever it returns; or a change of the clock, the connection, the locks
-- or the listener by others.
pub data Step (P : Type 0) (to_value : Payload.Payload P → Option String)
    : Db P → Db P → Type 0 where
  inserted : (e : Event P) (db : Db P) → Step P to_value db (insert_event to_value e db).1
  fetched :
      (config : OutboxConfig P) (limit : ℕ) (db : Db P)
      → Step P to_value db (fetch_next_to_process config limit db).1
  updated :
      (ids : List EventId) (st : EventStatus) (db : Db P)
      → Step P to_value db (update_status ids st db).1
  cleaned : (config : OutboxConfig P) (db : Db P) → Step P to_value db (delete_garbage config db).1
  waited : (channel : String) (db : Db P) → Step P to_value db (wait_for_notification channel db).1
  quarantined : (fs : List DlqEntry) (db : Db P) → Step P to_value db (quarantine_events fs db).1
  elsewhere : (db db' : Db P) → db'.rows ≡ db.rows → db'.dead ≡ db.dead → Step P to_value db db'

pub data Reach (P : Type 0) (to_value : Payload.Payload P → Option String) (start : Db P)
    : Db P → Type 0 where
  here : Reach P to_value start start
  next :
      {db db' : Db P}
      → Reach P to_value start db
      → Step P to_value db db'
      → Reach P to_value start db'

module _ {P : Type 0} where
  pub statement-IsSchema :
      {A : Type 0} (run : Db P → Outcome A × Db P)
      → ((db : Db P) → IsSchema db → IsSchema (run db).1)
      → (db : Db P) → IsSchema db
      → IsSchema (statement run db).1
  statement-IsSchema run h db s = statement_keeps IsSchema (λ d faults t. t) run h db s

  insert_row-IsSchema : (e : Event P) (db : Db P) → IsSchema db → IsSchema (insert_row e db).1
  unfolding insert_row
  insert_row-IsSchema e db s = ground arith

  pub insert_event-IsSchema :
      (to_value : Payload.Payload P → Option String) (e : Event P) (db : Db P)
      → IsSchema db
      → IsSchema (insert_event to_value e db).1
  unfolding insert_event
  insert_event-IsSchema to_value e db s = elim (Option-cases (to_value e.payload)) [
    | inl q ↦ rw (q, insert_event) (statement-IsSchema (insert_row e) (insert_row-IsSchema e) db s)
    | inr (m, q) ↦ rw (q, insert_event) s
  ]

  pub fetch_rows-IsSchema :
      (limit : ℕ) (mins : ℤ) (db : Db P) → IsSchema db → IsSchema (fetch_rows limit mins db).1
  unfolding fetch_rows
  fetch_rows-IsSchema limit mins db s =
      let c = claim-IsKeyKeeping (selected limit db) (later db.now minute mins) in
      (Keyed-map _ c db.rows s.0, TokensUnique-map _ c db.rows s.1, s.2)

  move_rows-IsSchema : (fs : List DlqEntry) (db : Db P) → IsSchema db → IsSchema (move_rows fs db).1
  unfolding move_rows
  move_rows-IsSchema fs db s =
      let letters =
        join_all db.now
          (keep (λ e. contains (map (λ (f : DlqEntry). as_uuid f.id) fs) (uuid_of e)) db.rows) fs in
      elim (Bool-cases (any_duplicate (map dead_id (letters ++ db.dead)))) [
        | inl t ↦ rw t s
        | inr n ↦ rw n (Keyed-keep _ db.rows s.0, TokensUnique-keep _ db.rows s.1, n)
      ]

  pub quarantine_events-IsSchema :
      (fs : List DlqEntry) (db : Db P) → IsSchema db → IsSchema (quarantine_events fs db).1
  unfolding quarantine_events
  quarantine_events-IsSchema [] db s = s
  quarantine_events-IsSchema (f ∷ fs) db s =
      statement-IsSchema (move_rows (f ∷ fs)) (move_rows-IsSchema (f ∷ fs)) db s
