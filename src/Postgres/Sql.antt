-- ===== src/Postgres/Sql.antt =====
-- The database that outbox-postgres/src/lib.rs talks to: the two tables of its migrations, the
-- server's clock, and what the connection does to the next statements.
use oxide_outbox.Prelude.{
  ℕ, String, Bool, false, ◌||◌, Option, none, some, List, [], ◌∷◌, leb, if◌then◌else◌, contains,
}
use oxide_outbox.Exec.{Outcome, err, database_error, Exec}
use oxide_outbox.Object.EventId.{as_uuid}
use oxide_outbox.Runtime.{Timestamp}
use oxide_outbox.Model.{Event}

-- A row of `outbox_dead_letters`: the columns of the moved row (its status as `original_status`),
-- and those of the quarantine.
pub record DeadLetter (P : Type 0) : Type 0 where
  pub event : Event P
  pub failure_count : ℕ
  pub last_error : Option String
  pub quarantined_at : Timestamp

-- A row of `outbox_events` has the columns of an `Event`. `faults` says of the next statements
-- whether the connection fails them, and with which message; `refusal` is the server's message for
-- a violated unique index; `row_locked` are the rows that other transactions hold; `listener` is
-- the channel of the `PgListener`, where there is one.
pub record Db (P : Type 0) : Type 0 where
  pub rows : List (Event P)
  pub dead : List (DeadLetter P)
  pub now : Timestamp
  pub faults : List (Option String)
  pub refusal : String
  pub row_locked : ℕ → Bool
  pub listener : Option String

abbrev pub uuid_of : {P : Type 0} → Event P → ℕ
uuid_of e = as_uuid e.id

abbrev pub i32_max : ℕ
i32_max = 2147483647

-- A call of the server: it runs, or the connection fails it with `DatabaseError`.
abbrev pub attempt :
    {P A : Type 0} → List (Option String) → (Db P → Outcome A × Db P) → Exec (Db P) A
attempt [] run db = run db
attempt (none ∷ rest) run db = run (record db { faults = rest })
attempt (some message ∷ rest) run db = (err (database_error message), record db { faults = rest })

unfoldable pub statement : {P A : Type 0} → (Db P → Outcome A × Db P) → Exec (Db P) A
statement run db = attempt db.faults run db

-- `ORDER BY locked_until ASC`
abbrev pub insert_by_lock : {P : Type 0} → Event P → List (Event P) → List (Event P)
insert_by_lock e [] = e ∷ []
insert_by_lock e (x ∷ xs) =
    if leb e.locked_until x.locked_until then e ∷ x ∷ xs else x ∷ insert_by_lock e xs

abbrev pub sort_by_lock : {P : Type 0} → List (Event P) → List (Event P)
sort_by_lock [] = []
sort_by_lock (e ∷ es) = insert_by_lock e (sort_by_lock es)

-- Whether a unique index over these keys is violated.
abbrev pub any_duplicate : List ℕ → Bool
any_duplicate [] = false
any_duplicate (k ∷ ks) = contains ks k || any_duplicate ks
