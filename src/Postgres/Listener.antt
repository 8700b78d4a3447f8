-- ===== src/Postgres/Listener.antt =====
-- `wait_for_notification` in outbox-postgres/src/lib.rs. The message of a notification is not read.
use oxide_outbox.Prelude.{String, Option, none, some}
use oxide_outbox.Exec.{Outcome, ok, err, panicked, Exec, pure, effect, ◌>>◌}
use oxide_outbox.Postgres.Sql.{Db, statement}

module _ {P : Type 0} where
  -- `if guard.is_none() { … }`: a connection, `LISTEN`, and then the guard is set.
  pub subscribe : Option String → String → Exec (Db P) (Unit {0})
  unfolding statement
  subscribe (some listening) channel = pure tt
  subscribe none channel = do
    statement λ db. (ok tt, db)
    statement λ db. (ok tt, db)
    effect λ db. (tt, record db { listener = some channel })

  -- The `match` on `recv()`: an error drops the listener.
  abbrev pub received : Outcome (Unit {0}) × Db P → Outcome (Unit {0}) × Db P
  received (ok u, db) = (ok u, db)
  received (err e, db) = (err e, record db { listener = none })
  received (panicked s, db) = (panicked s, db)

  unfoldable pub wait_for_notification : String → Exec (Db P) (Unit {0})
  unfolding subscribe statement
  wait_for_notification channel = do
    λ db. subscribe db.listener channel db
    λ db. received (statement (λ db. (ok tt, db)) db)
