-- ===== src/Postgres/Schema/Invariant.antt =====
-- The constraints hold in every database that outbox-postgres/src/lib.rs can reach.
use oxide_outbox.Prelude.{String, ◌≡◌, Option, none, some, arith, map}
use oxide_outbox.Exec.{ok}
use oxide_outbox.Object.EventId.{as_uuid}
use oxide_outbox.Object.Payload
use oxide_outbox.Postgres.Sql.{Db}
use oxide_outbox.Postgres.Listener.{wait_for_notification}
use oxide_outbox.Postgres.{
  fetch_next_to_process, fetch_rows, update_status, delete_garbage, delete_rows,
}
use oxide_outbox.Postgres.Schema.{IsSchema}
use oxide_outbox.Postgres.Schema.Rows.{Keyed-keep, TokensUnique-keep, Keyed-map, TokensUnique-map}
use oxide_outbox.Postgres.Schema.Reach.{
  Step, inserted, fetched, updated, cleaned, waited, quarantined, elsewhere, Reach, here, next,
  statement-IsSchema, insert_event-IsSchema, fetch_rows-IsSchema, quarantine_events-IsSchema,
  set_status-IsKeyKeeping,
}

-- The channel of a listener that there is, or else the given one.
abbrev pub listening : String → Option String → String
listening channel none = channel
listening channel (some other) = other

-- A wait for a notification touches no table, whatever the connection does; when it succeeds a
-- listener is set, that of before or one on the given channel, and when it fails none is.
pub wait_for_notification-listener :
    {P : Type 0} (channel : String) (db : Db P)
    → let done = wait_for_notification channel db in
      (done.1.rows ≡ db.rows)
      × (done.1.dead ≡ db.dead)
      × (done.0 ≡ ok tt → done.1.listener ≡ some (listening channel db.listener))
      × (¬ (done.0 ≡ ok tt) → done.1.listener ≡ none)
unfolding wait_for_notification
wait_for_notification-listener channel db = ground arith

module _ {P : Type 0} (to_value : Payload.Payload P → Option String) where
  Step-IsSchema : {db db' : Db P} → Step P to_value db db' → IsSchema db → IsSchema db'
  unfolding fetch_next_to_process update_status delete_garbage
  Step-IsSchema (inserted e db) s = insert_event-IsSchema to_value e db s
  Step-IsSchema (fetched config limit db) s =
      statement-IsSchema (fetch_rows limit config.lock_timeout_mins)
        (fetch_rows-IsSchema limit config.lock_timeout_mins) db s
  Step-IsSchema (updated ids st db) s =
      let c = set_status-IsKeyKeeping (map as_uuid ids) st in
      statement-IsSchema _ (λ d t. (Keyed-map _ c d.rows t.0, TokensUnique-map _ c d.rows t.1, t.2))
        db s
  Step-IsSchema (cleaned config db) s =
      statement-IsSchema (delete_rows config.retention_days)
        (unfold delete_rows in
          λ d t. (Keyed-keep _ d.rows t.0, TokensUnique-keep _ d.rows t.1, t.2))
        db s
  Step-IsSchema (waited channel db) s =
      let (rows, dead, _, _) = wait_for_notification-listener channel db in rw (rows, dead) s
  Step-IsSchema (quarantined fs db) s = quarantine_events-IsSchema fs db s
  Step-IsSchema (elsewhere db db' rows dead) s = rw (rows, dead) s

  -- From tables that satisfy their unique indexes, every sequence of the adapter's operations,
  -- with any arguments and outcomes and any faults, clocks and locks in between, leads to tables
  -- that satisfy them: no two rows have one `id` or one idempotency token, and no two dead letters
  -- have one `id`.
  pub Reach-IsSchema : {start db : Db P} → Reach P to_value start db → IsSchema start → IsSchema db
  Reach-IsSchema here s = s
  Reach-IsSchema (next r step) s = Step-IsSchema step (Reach-IsSchema r s)
