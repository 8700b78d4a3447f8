-- ===== src/Postgres/Custody.antt =====
-- Where the events of outbox-postgres/src/lib.rs are: an event whose delivery is open stands in one
-- of the two tables, through every statement. `D k` says that the event `k` was delivered.
pub mod Removal
pub mod Calls
use mathlib.Core.List.Memᴰ.{head, tail}
use oxide_outbox.Prelude.{
  ℕ, Bool, true, false, not, ◌≡◌, ◌≢◌, refl, sym, subst, ◌∙◌, ap, ◌⊎◌, inl, inr, List, [], ◌∷◌,
  ◌++◌, map, Memᴰ, keep, take, contains, arith, Bool-cases, In_of_keep, In-keep, In_of_map,
  In_of_take, contains-map, contains_of_In, In-append-left, In-append-right, ◌||◌,
}
use oxide_outbox.Prelude.Int.{ℤ, later}
use oxide_outbox.Exec.{Outcome, ok, err}
use oxide_outbox.Object.EventId.{as_uuid}
use oxide_outbox.Runtime.{Timestamp}
use oxide_outbox.Model.{Event, EventStatus, sent, DlqEntry}
use oxide_outbox.Postgres.Sql.{Db, DeadLetter, uuid_of, any_duplicate}
use oxide_outbox.Postgres.{
  minute, claim, selected, set_status, is_garbage, garbage, fetch_rows, delete_rows, move_rows,
  dead_id, join_all,
}
use oxide_outbox.Postgres.Writer.{insert_row, token_taken}
use oxide_outbox.Postgres.Quarantine.{entry_uuid, named, letter, In-all_letters}
use oxide_outbox.Postgres.Schema.Rows.{IsKeyKeeping, uuids-map}
use oxide_outbox.Postgres.Schema.Reach.{claim-IsKeyKeeping, set_status-IsKeyKeeping}

-- Every row that is marked `Sent` was delivered.
abbrev pub Honest : {P : Type 0} → (ℕ → Type 0) → List (Event P) → Type 0
Honest {P} D rows = (e : Event P) → Memᴰ e rows → e.status ≡ sent → D (uuid_of e)

-- An event stands in a table, or was delivered.
abbrev pub Held : {P : Type 0} → (ℕ → Type 0) → ℕ → Db P → Type 0
Held D k db =
    (contains (map uuid_of db.rows) k ≡ true) ⊎ ((contains (map dead_id db.dead) k ≡ true) ⊎ D k)

abbrev pub InCustody : {P : Type 0} → (ℕ → Type 0) → ℕ → Db P → Type 0
InCustody D k db = Honest D db.rows × Held D k db

module _ {P : Type 0} (D : ℕ → Type 0) where
  Honest-map :
      (f : Event P → Event P)
      → IsKeyKeeping f
      → ((e : Event P) → (f e).status ≡ sent → (e.status ≡ sent) ⊎ D (uuid_of e))
      → (rows : List (Event P)) → Honest D rows
      → Honest D (map f rows)
  Honest-map f c back rows h e i q =
      let (old, j, made) = In_of_map f e rows i in
      let same : uuid_of old ≡ uuid_of e = sym (ap uuid_of made ∙ c.same_uuid old) in
      subst D same (elim (back old (sym (ap (λ (x : Event P). x.status) made) ∙ q)) [
        | inl was ↦ h old j was
        | inr d ↦ d
      ])

  pub Honest-keep :
      (p : Event P → Bool) (rows : List (Event P)) → Honest D rows → Honest D (keep p rows)
  Honest-keep p rows h e i q = h e (In_of_keep p e rows i).0 q

  -- What a filter does to a key.
  pub kept_or_dropped :
      (p : Event P → Bool) (k : ℕ) (rows : List (Event P))
      → contains (map uuid_of rows) k ≡ true
      → (contains (map uuid_of (keep p rows)) k ≡ true)
        ⊎ ((e : Event P) × Memᴰ e rows × (uuid_of e ≡ k) × (p e ≡ false))
  kept_or_dropped p k rows h =
      let (e, i, q) = contains-map uuid_of k rows h in
      elim (Bool-cases (p e)) [
        | inl t ↦ inl (
            subst (λ j. contains (map uuid_of (keep p rows)) j ≡ true) q
              (contains_of_In uuid_of e (keep p rows) (In-keep p e rows i t)))
        | inr n ↦ inr (e, i, q, n)
      ]

  claim_back :
      (ids : List ℕ) (until : Timestamp) (e : Event P)
      → (claim ids until e).status ≡ sent
      → (e.status ≡ sent) ⊎ D (uuid_of e)
  claim_back ids until e h = inl (ground arith)

  set_status_back :
      (ids : List ℕ) (e : Event P)
      → ((k : ℕ) → contains ids k ≡ true → D k)
      → (set_status ids sent e).status ≡ sent
      → (e.status ≡ sent) ⊎ D (uuid_of e)
  set_status_back ids e d h = elim (Bool-cases (contains ids (uuid_of e))) [
    | inl t ↦ inr (d (uuid_of e) t)
    | inr n ↦ inl (ground arith)
  ]

  pub fetch_rows-InCustody :
      (limit : ℕ) (mins : ℤ) (k : ℕ) (db : Db P)
      → InCustody D k db
      → InCustody D k (fetch_rows limit mins db).1
  unfolding fetch_rows
  fetch_rows-InCustody limit mins k db h =
      let ids = selected limit db in
      let until = later db.now minute mins in
      let c = claim-IsKeyKeeping ids until in
      (
        Honest-map (claim ids until) c (claim_back ids until) db.rows h.0,
        rw (uuids-map (claim ids until) c db.rows) h.1,
      )

  pub update_rows-InCustody :
      (ids : List ℕ) (k : ℕ) (db : Db P)
      → ((j : ℕ) → contains ids j ≡ true → D j)
      → InCustody D k db
      → InCustody D k (record db { rows = map (set_status ids sent) db.rows })
  update_rows-InCustody ids k db d h =
      let c = set_status-IsKeyKeeping ids sent in
      (
        Honest-map (set_status ids sent) c (λ e. set_status_back ids e d) db.rows h.0,
        rw (uuids-map (set_status ids sent) c db.rows) h.1,
      )

  pub insert_row-InCustody :
      (e : Event P) (k : ℕ) (db : Db P)
      → e.status ≢ sent
      → InCustody D k db
      → InCustody D k (insert_row e db).1
  unfolding insert_row
  insert_row-InCustody e k db fresh h =
      elim (Bool-cases
        (contains (map uuid_of db.rows) (uuid_of e) || token_taken e.idempotency_token db.rows)) [
          | inl t ↦ rw t h
          | inr n ↦ rw n (honest, held h.1)
        ]
    where
      honest : Honest D (e ∷ db.rows)
      honest a (head q) s = absurd (fresh (sym (ap (λ (x : Event P). x.status) q) ∙ s))
      honest a (tail i) s = h.0 a i s

      held : Held D k db → Held D k (record db { rows = e ∷ db.rows })
      held (inl t) = inl (ground arith)
      held (inr o) = inr o
