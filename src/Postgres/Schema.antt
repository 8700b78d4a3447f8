-- ===== src/Postgres/Schema.antt =====
-- The unique indexes of outbox-postgres/migrations, under every statement of
-- outbox-postgres/src/lib.rs.
pub mod Rows
pub mod Reach
pub mod Invariant
pub mod Bounds
use oxide_outbox.Prelude.{Bool, false, ◌≡◌, List, [], ◌∷◌, map}
use oxide_outbox.Model.{Event}
use oxide_outbox.Postgres.Sql.{Db, any_duplicate}
use oxide_outbox.Postgres.Writer.{token_taken}
use oxide_outbox.Postgres.{dead_id}
use oxide_outbox.Postgres.Fetch.{Keyed}

-- The unique index on `idempotency_token`: no two rows have one token.
abbrev pub TokensUnique : {P : Type 0} → List (Event P) → Type 0
TokensUnique [] = Unit
TokensUnique (e ∷ es) = (token_taken e.idempotency_token es ≡ false) × TokensUnique es

-- The constraints of the two tables.
abbrev pub IsSchema : {P : Type 0} → Db P → Type 0
IsSchema db = Keyed db.rows × TokensUnique db.rows × (any_duplicate (map dead_id db.dead) ≡ false)
