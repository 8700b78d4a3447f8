-- ===== src/Postgres/Statement.antt =====
-- Rules for the calls of outbox-postgres/src/lib.rs: what a statement keeps, its call keeps.
use oxide_outbox.Prelude.{String, Option, none, some, List, [], ◌∷◌}
use oxide_outbox.Exec.{Outcome}
use oxide_outbox.Postgres.Sql.{Db, attempt, statement}

module _ {P : Type 0} (I : Db P → Type 0)
    (indifferent : (db : Db P) (faults : List (Option String))
      → I db
      → I (record db { faults = faults })) where
  attempt_keeps :
      {A : Type 0} (run : Db P → Outcome A × Db P)
      → ((db : Db P) → I db → I (run db).1)
      → (faults : List (Option String)) (db : Db P) → I db
      → I (attempt faults run db).1
  attempt_keeps run h [] db i = h db i
  attempt_keeps run h (none ∷ rest) db i = h (record db { faults = rest }) (indifferent db rest i)
  attempt_keeps run h (some message ∷ rest) db i = indifferent db rest i

  pub statement_keeps :
      {A : Type 0} (run : Db P → Outcome A × Db P)
      → ((db : Db P) → I db → I (run db).1)
      → (db : Db P) → I db
      → I (statement run db).1
  unfolding statement
  statement_keeps run h db i = attempt_keeps run h db.faults db i
