-- ===== src/Postgres/Writer.antt =====
-- `PostgresWriter::insert_event` in outbox-postgres/src/lib.rs, with the two unique indexes of
-- outbox-postgres/migrations/20260213152819_init.sql.
use text.Mathlib.Text.{◌==◌}
use oxide_outbox.Prelude.{
  String, Bool, false, ◌||◌, Option, none, some, List, [], ◌∷◌, map, contains, if◌then◌else◌,
}
use oxide_outbox.Exec.{Outcome, ok, err, Exec, database_error, raise}
use oxide_outbox.Object.IdempotencyToken.{IdempotencyToken, as_str}
use oxide_outbox.Object.Payload
use oxide_outbox.Model.{Event}
use oxide_outbox.Traits.{OutboxWriter}
use oxide_outbox.Postgres.Sql.{Db, statement, uuid_of}

-- Two keys of `idx_outbox_idempotency` collide; nulls are distinct.
abbrev pub same_token : Option IdempotencyToken → Option IdempotencyToken → Bool
same_token (some t) (some u) = as_str t == as_str u
same_token _ _ = false

module _ {P : Type 0} where
  abbrev pub token_taken : Option IdempotencyToken → List (Event P) → Bool
  token_taken token [] = false
  token_taken token (e ∷ es) = same_token token e.idempotency_token || token_taken token es

  -- The `INSERT`: the primary key and the unique index refuse a second row.
  unfoldable pub insert_row : Event P → Db P → Outcome (Unit {0}) × Db P
  insert_row e db =
      if contains (map uuid_of db.rows) (uuid_of e) || token_taken e.idempotency_token db.rows
      then (err (database_error db.refusal), db)
      else (ok tt, record db { rows = e ∷ db.rows })

  -- `to_value` is `serde_json::to_value(&event.payload)`: the message of its error, or nothing.
  unfoldable pub insert_event :
      (Payload.Payload P → Option String) → Event P → Exec (Db P) (Unit {0})
  unfolding insert_row statement
  insert_event to_value e = elim (to_value e.payload) [
    | some message ↦ raise (database_error message)
    | none ↦ statement (insert_row e)
  ]

  abbrev pub postgres_writer : (Payload.Payload P → Option String) → OutboxWriter P (Db P)
  postgres_writer to_value = record { insert_event = insert_event to_value }
