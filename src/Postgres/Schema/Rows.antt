-- ===== src/Postgres/Schema/Rows.antt =====
-- What keeps the indexes of `outbox_events`: to delete rows, and to change rows in other columns.
use oxide_outbox.Prelude.{
  ℕ, Bool, false, ◌≡◌, refl, Option, List, [], ◌∷◌, map, keep, contains, arith,
}
use oxide_outbox.Object.IdempotencyToken.{IdempotencyToken}
use oxide_outbox.Model.{Event}
use oxide_outbox.Postgres.Sql.{uuid_of}
use oxide_outbox.Postgres.Writer.{token_taken}
use oxide_outbox.Postgres.Fetch.{Keyed}
use oxide_outbox.Postgres.Schema.{TokensUnique}

module _ {P : Type 0} where
  contains-keep :
      (p : Event P → Bool) (k : ℕ) (rows : List (Event P))
      → contains (map uuid_of rows) k ≡ false
      → contains (map uuid_of (keep p rows)) k ≡ false
  contains-keep p k [] h = refl
  contains-keep p k (e ∷ es) h = ground (arith, contains-keep p k es)

  pub Keyed-keep : (p : Event P → Bool) (rows : List (Event P)) → Keyed rows → Keyed (keep p rows)
  Keyed-keep p [] h = tt
  Keyed-keep p (e ∷ es) h = ground (arith, Keyed-keep p es h.1, contains-keep p (uuid_of e) es h.0)

  token_taken-keep :
      (p : Event P → Bool) (t : Option IdempotencyToken) (rows : List (Event P))
      → token_taken t rows ≡ false
      → token_taken t (keep p rows) ≡ false
  token_taken-keep p t [] h = refl
  token_taken-keep p t (e ∷ es) h = ground (arith, token_taken-keep p t es)

  pub TokensUnique-keep :
      (p : Event P → Bool) (rows : List (Event P)) → TokensUnique rows → TokensUnique (keep p rows)
  TokensUnique-keep p [] h = tt
  TokensUnique-keep p (e ∷ es) h =
      ground (arith, TokensUnique-keep p es h.1, token_taken-keep p e.idempotency_token es h.0)

-- A change of other columns.
pub record IsKeyKeeping {P : Type 0} (f : Event P → Event P) : Type 0 where
  pub same_uuid : (e : Event P) → uuid_of (f e) ≡ uuid_of e
  pub same_token : (e : Event P) → (f e).idempotency_token ≡ e.idempotency_token

module _ {P : Type 0} (f : Event P → Event P) (c : IsKeyKeeping f) where
  pub uuids-map : (rows : List (Event P)) → map uuid_of (map f rows) ≡ map uuid_of rows
  uuids-map [] = refl
  uuids-map (e ∷ es) = rw (c.same_uuid e, uuids-map es) refl

  pub Keyed-map : (rows : List (Event P)) → Keyed rows → Keyed (map f rows)
  Keyed-map [] h = tt
  Keyed-map (e ∷ es) h = rw (c.same_uuid e, uuids-map es) (h.0, Keyed-map es h.1)

  token_taken-map :
      (t : Option IdempotencyToken) (rows : List (Event P))
      → token_taken t (map f rows) ≡ token_taken t rows
  token_taken-map t [] = refl
  token_taken-map t (e ∷ es) = rw (c.same_token e, token_taken-map t es) refl

  pub TokensUnique-map : (rows : List (Event P)) → TokensUnique rows → TokensUnique (map f rows)
  TokensUnique-map [] h = tt
  TokensUnique-map (e ∷ es) h =
      rw (c.same_token e, token_taken-map e.idempotency_token es) (h.0, TokensUnique-map es h.1)
