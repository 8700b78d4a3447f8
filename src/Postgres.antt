-- ===== src/Postgres.antt =====
-- outbox-postgres/src/lib.rs, with outbox-postgres/migrations: the SQL statements as functions of
-- the tables. A scan visits the rows in table order, and every order of the table is an input.
pub mod Sql
pub mod Statement
pub mod Listener
pub mod Writer
pub mod Fetch
pub mod Garbage
pub mod Schema
pub mod Contracts
pub mod Custody
pub mod Quarantine
use Prim.Native.Nat.{◌*◌}
use oxide_outbox.Prelude.{
  ℕ, String, Bool, true, false, not, ◌||◌, ◌&&◌, Option, none, some, List, [], ◌∷◌, ◌++◌, map, ltb,
  ◌==◌, if◌then◌else◌, is_empty, keep, take, contains,
}
use oxide_outbox.Prelude.Int.{ℤ, later, earlier}
use oxide_outbox.Exec.{Outcome, ok, err, panicked, Exec, database_error, pure, raise, ◌>>=◌, ◌>>◌}
use oxide_outbox.Object.EventId.{EventId, as_uuid}
use oxide_outbox.Runtime.{Timestamp}
use oxide_outbox.Model.{Event, EventStatus, pending, processing, sent, is_status, DlqEntry}
use oxide_outbox.Config.{OutboxConfig}
use oxide_outbox.Traits.{OutboxStorage}
use oxide_outbox.Postgres.Listener.{wait_for_notification}
use oxide_outbox.Postgres.Sql.{
  Db, DeadLetter, statement, i32_max, sort_by_lock, uuid_of, any_duplicate,
}

-- `INTERVAL '1 minute'` and `INTERVAL '1 day'`, in microseconds.
abbrev pub minute : ℕ
minute = 60000000

abbrev pub day : ℕ
day = 86400000000

-- `i32::try_from(e.failure_count).unwrap_or(i32::MAX)`
abbrev pub failure_count_column : ℕ → ℕ
failure_count_column n = if ltb i32_max n then i32_max else n

module _ {P : Type 0} where
  -- `status='Pending' OR (status='Processing' AND locked_until < NOW())`
  abbrev pub eligible : Timestamp → Event P → Bool
  eligible now e =
      is_status e.status pending || (is_status e.status processing && ltb e.locked_until now)

  -- The rows of the inner `SELECT` before its `ORDER BY`; `FOR UPDATE SKIP LOCKED` passes over the
  -- rows that other transactions hold.
  unfoldable pub candidates : Db P → List (Event P)
  candidates db = keep (λ e. eligible db.now e && not (db.row_locked (uuid_of e))) db.rows

  -- The identifiers that the inner `SELECT` returns.
  pub selected : ℕ → Db P → List ℕ
  unfolding candidates
  selected limit db = map uuid_of (take limit (sort_by_lock (candidates db)))

  -- `SET status = 'Processing', locked_until = NOW() + …` on the rows whose `id` is selected.
  abbrev pub claim : List ℕ → Timestamp → Event P → Event P
  claim ids until e =
      if contains ids (uuid_of e) then record e { status = processing; locked_until = until } else e

  -- The statement of `fetch_next_to_process`: the claimed rows come back as they now are.
  unfoldable pub fetch_rows : ℕ → ℤ → Db P → Outcome (List (Event P)) × Db P
  unfolding selected
  fetch_rows limit lock_timeout_mins db =
      let ids = selected limit db in
      let rows = map (claim ids (later db.now minute lock_timeout_mins)) db.rows in
      (ok (keep (λ e. contains ids (uuid_of e)) rows), record db { rows = rows })

  unfoldable pub fetch_next_to_process : OutboxConfig P → ℕ → Exec (Db P) (List (Event P))
  unfolding fetch_rows statement
  fetch_next_to_process config limit = statement (fetch_rows limit config.lock_timeout_mins)

  abbrev pub set_status : List ℕ → EventStatus → Event P → Event P
  set_status ids status e = if contains ids (uuid_of e) then record e { status = status } else e

  unfoldable pub update_status : List EventId → EventStatus → Exec (Db P) (Unit {0})
  unfolding statement
  update_status ids status =
      let raw_ids = map as_uuid ids in
      statement λ db. (ok tt, record db { rows = map (set_status raw_ids status) db.rows })

  -- `status='Sent' AND created_at < now() - …`
  abbrev pub is_garbage : Timestamp → ℤ → Event P → Bool
  is_garbage now retention_days e =
      is_status e.status sent && ltb e.created_at (earlier now day retention_days)

  -- The identifiers of the inner `SELECT … LIMIT 5000`.
  pub garbage : ℤ → Db P → List ℕ
  garbage retention_days db =
      map uuid_of (take 5000 (keep (is_garbage db.now retention_days) db.rows))

  pub delete_rows : ℤ → Db P → Outcome (Unit {0}) × Db P
  unfolding garbage
  delete_rows retention_days db =
      let ids = garbage retention_days db in
      (ok tt, record db { rows = keep (λ e. not (contains ids (uuid_of e))) db.rows })

  unfoldable pub delete_garbage : OutboxConfig P → Exec (Db P) (Unit {0})
  unfolding delete_rows statement
  delete_garbage config = statement (delete_rows config.retention_days)

  -- The rows of `deleted AS d JOIN unnest(…) AS f ON d.id = f.id` for one deleted row.
  abbrev pub join_entries : Timestamp → Event P → List DlqEntry → List (DeadLetter P)
  join_entries now d [] = []
  join_entries now d (f ∷ fs) =
      if uuid_of d == as_uuid f.id
      then record {
        event = d;
        failure_count = failure_count_column f.failure_count;
        last_error = f.last_error;
        quarantined_at = now;
      }
        ∷ join_entries now d fs
      else join_entries now d fs

  abbrev pub join_all : Timestamp → List (Event P) → List DlqEntry → List (DeadLetter P)
  join_all now [] fs = []
  join_all now (d ∷ ds) fs = join_entries now d fs ++ join_all now ds fs

  abbrev pub dead_id : DeadLetter P → ℕ
  dead_id l = uuid_of l.event

  -- The statement of `quarantine_events`: a second row under the primary key of
  -- `outbox_dead_letters` fails it as a whole.
  pub move_rows : List DlqEntry → Db P → Outcome (Unit {0}) × Db P
  move_rows entries db =
      let ids = map (λ (e : DlqEntry). as_uuid e.id) entries in
      let moved = join_all db.now (keep (λ e. contains ids (uuid_of e)) db.rows) entries in
      if any_duplicate (map dead_id (moved ++ db.dead))
      then (err (database_error db.refusal), db)
      else (
        ok tt,
        record db {
          rows = keep (λ e. not (contains ids (uuid_of e))) db.rows;
          dead = moved ++ db.dead;
        },
      )

  unfoldable pub quarantine_events : List DlqEntry → Exec (Db P) (Unit {0})
  unfolding move_rows statement
  quarantine_events entries = if is_empty entries then pure tt else statement (move_rows entries)

  -- `PostgresOutbox`
  abbrev pub postgres_outbox : OutboxConfig P → OutboxStorage P (Db P)
  postgres_outbox config = record {
    fetch_next_to_process = fetch_next_to_process config;
    update_status = update_status;
    delete_garbage = delete_garbage config;
    wait_for_notification = wait_for_notification;
    quarantine_events = quarantine_events;
  }
