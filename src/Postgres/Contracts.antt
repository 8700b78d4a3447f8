-- ===== src/Postgres/Contracts.antt =====
-- What outbox-core's traits document, of outbox-postgres/src/lib.rs.
use oxide_outbox.Prelude.{
  ℕ, String, true, false, ◌≡◌, refl, subst, ◌∙◌, inl, inr, Option, List, ◌∷◌, map, All, All-of_In,
  Memᴰ, contains, arith, Bool-cases, Option-cases, In_of_keep, In_of_map,
}
use oxide_outbox.Exec.{Outcome, ok, err, panicked}
use oxide_outbox.Object.EventId.{EventId, as_uuid}
use oxide_outbox.Object.Payload
use oxide_outbox.Model.{Event, sent}
use oxide_outbox.Config.{OutboxConfig}
use oxide_outbox.Service.AddEvent.{IsWriter}
use oxide_outbox.Postgres.Sql.{Db, uuid_of}
use oxide_outbox.Postgres.Writer.{insert_event, insert_row, postgres_writer}
use oxide_outbox.Postgres.{eligible, selected, set_status, update_status, fetch_next_to_process}
use oxide_outbox.Postgres.Fetch.{hits}
use oxide_outbox.Postgres.Fetch.Claims.{claimed_rows, fetch_ok}
use oxide_outbox.Postgres.Fetch.Selection.{selected-Claimable}

-- An insert adds its row or, whatever refuses it, changes no row.
insert-cases :
    {P : Type 0} (to_value : Payload.Payload P → Option String) (e : Event P) (db : Db P)
    (r : Outcome (Unit {0}))
    → (insert_event to_value e db).0 ≡ r
    → let after = (insert_event to_value e db).1 in
      (r ≡ ok tt → after.rows ≡ e ∷ db.rows) × (¬ (r ≡ ok tt) → after.rows ≡ db.rows)
unfolding insert_event insert_row
insert-cases to_value e db r h = elim (Option-cases (to_value e.payload)) [
  | inl q ↦ ground (arith, q, h)
  | inr (m, q) ↦ ground (arith, q, h)
]

-- `PostgresWriter` keeps the writer's contract: an insert that succeeds adds its row and no other,
-- and one that fails, in the encoding of the payload, on the connection or at a unique index, adds
-- none.
pub postgres_writer-IsWriter :
    {P : Type 0} (to_value : Payload.Payload P → Option String)
    → IsWriter (λ (db : Db P). db.rows) (postgres_writer to_value)
postgres_writer-IsWriter to_value = record {
  adds = λ e db h. (insert-cases to_value e db (ok tt) h).0 refl;
  refuses = λ e db x h. (insert-cases to_value e db (err x) h).1 (λ q. cc);
  aborts = λ e db x h. (insert-cases to_value e db (panicked x) h).1 (λ q. cc);
}

update_ok :
    {P : Type 0} (ids : List EventId) (db : Db P)
    → (update_status ids sent db).0 ≡ ok tt
    → (update_status ids sent db).1.rows ≡ map (set_status (map as_uuid ids) sent) db.rows
unfolding update_status
update_ok ids db h = ground arith

sent-ineligible :
    {P : Type 0} (ids : List ℕ) (now : ℕ) (e : Event P)
    → contains ids (uuid_of (set_status ids sent e)) ≡ true
    → eligible now (set_status ids sent e) ≡ false
sent-ineligible ids now e h = ground arith

-- A row that was marked `Sent` is not delivered again: after an `update_status` to `Sent` that
-- succeeds, a fetch from the rows that it left, by any worker, at any time and with any
-- configuration and limit, returns none of the given identifiers.
pub update_status-final :
    {P : Type 0} (ids : List EventId) (db db' : Db P) (config : OutboxConfig P) (limit : ℕ)
    (es : List (Event P))
    → (update_status ids sent db).0 ≡ ok tt
    → db'.rows ≡ (update_status ids sent db).1.rows
    → (fetch_next_to_process config limit db').0 ≡ ok es
    → All (λ (e : Event P). contains (map as_uuid ids) (uuid_of e) ≡ false) es
update_status-final {P = P} ids db db' config limit es h same h' =
    let raw = map as_uuid ids in
    rw ((fetch_ok config limit db' es h').0) (
      All-of_In (λ (e : Event P). _) (hits (selected limit db') (claimed_rows config limit db'))
        λ e i.
          let (_, hit) = In_of_keep _ e (claimed_rows config limit db') i in
          let (c, j, q, claimable) = selected-Claimable limit db' (uuid_of e) hit in
          let (old, k, made) =
            In_of_map (set_status raw sent) c db.rows
              (subst (λ l. Memᴰ c l) (same ∙ update_ok ids db h) j) in
          elim (Bool-cases (contains raw (uuid_of e))) [
            | inr n ↦ n
            | inl t ↦ absurd (ground (arith, made, q, t, sent-ineligible raw db'.now old))
          ])
