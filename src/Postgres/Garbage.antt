-- ===== src/Postgres/Garbage.antt =====
-- `delete_garbage` and `update_status` in outbox-postgres/src/lib.rs.
use mathlib.Core.List.Memᴰ.{head, tail}
use oxide_outbox.Prelude.{
  ℕ, ◌+◌, ◌≤◌, Bool, true, false, not, ◌≡◌, ◌≢◌, refl, subst, inl, inr, List, [], ◌∷◌, map, Memᴰ,
  All, All-of_In, keep, take, length, length-take, contains, arith, Bool-cases, In_of_keep, In-keep,
  In_of_take, In-take, contains-map, contains_of_In, length-map,
}
use oxide_outbox.Exec.{ok}
use oxide_outbox.Model.{Event, sent}
use oxide_outbox.Config.{OutboxConfig}
use oxide_outbox.Postgres.Sql.{Db, uuid_of}
use oxide_outbox.Postgres.{is_garbage, garbage, delete_rows, delete_garbage}
use oxide_outbox.Postgres.Schema.Rows.{Keyed-keep}
use oxide_outbox.Postgres.Statement.{statement_keeps}
use oxide_outbox.Postgres.Fetch.{Keyed, Keyed-unique, length-hits}

not-true : (b : Bool) → not b ≡ true → b ≡ false
not-true b h = ground arith

not-swap : (p c : Bool) → (c ≡ true → p ≡ true) → not p ≡ true → not c ≡ true
not-swap p c h t = ground (arith, h)

module _ {P : Type 0} where
  -- A filter behind one that it is stronger than.
  keep-keep :
      (p q : Event P → Bool) (rows : List (Event P))
      → ((e : Event P) → Memᴰ e rows → p e ≡ true → q e ≡ true)
      → keep p (keep q rows) ≡ keep p rows
  keep-keep p q [] h = refl
  keep-keep p q (e ∷ es) h = ground (arith, h e (head refl), keep-keep p q es (λ a i. h a (tail i)))

  pub length-split :
      (p : Event P → Bool) (rows : List (Event P))
      → length rows ≡ length (keep (λ e. not (p e)) rows) + length (keep p rows)
  length-split p [] = omega arith
  length-split p (e ∷ es) = ground (arith, length-split p es)

  garbage-row :
      (n : ℕ) (p : Event P → Bool) (rows : List (Event P)) (e : Event P)
      → Keyed rows
      → Memᴰ e rows
      → contains (map uuid_of (take n (keep p rows))) (uuid_of e) ≡ true
      → p e ≡ true
  garbage-row n p rows e keyed i h =
      let (c, j, same) = contains-map uuid_of (uuid_of e) (take n (keep p rows)) h in
      let (k, t) = In_of_keep p c rows (In_of_take n c (keep p rows) j) in
      subst (λ (x : Event P). p x ≡ true) (Keyed-unique rows c e keyed k i same) t

  garbage-gone :
      (n : ℕ) (p : Event P → Bool) (rows : List (Event P)) (e : Event P)
      → length (keep p rows) ≤ n
      → Memᴰ e rows
      → contains (map uuid_of (take n (keep p rows))) (uuid_of e) ≡ false
      → p e ≡ false
  garbage-gone n p rows e h i absent = elim (Bool-cases (p e)) [
    | inl t ↦ absurd (
        ground (
          arith,
          contains_of_In uuid_of e (take n (keep p rows))
              (In-take n e (keep p rows) h (In-keep p e rows i t)),
        ))
    | inr f ↦ f
  ]

delete_ok :
    {P : Type 0} (config : OutboxConfig P) (db : Db P) (u : Unit {0})
    → (delete_garbage config db).0 ≡ ok u
    → let db' = (delete_garbage config db).1 in
      (db'.rows
        ≡ keep
            (λ (e : Event P). not (contains (garbage config.retention_days db) (uuid_of e)))
            db.rows)
      × (db'.dead ≡ db.dead)
unfolding delete_garbage
delete_ok config db u h = ground arith

-- A cleanup that succeeds deletes nothing but sent rows past their retention: all other rows stay,
-- in their order. It deletes 5000 rows at most, and where there were no more than that to delete,
-- none is left. The dead letters stay. The table has a primary key.
pub delete_garbage-keeps :
    {P : Type 0} (config : OutboxConfig P) (db : Db P) (u : Unit {0})
    → Keyed db.rows
    → (delete_garbage config db).0 ≡ ok u
    → let db' = (delete_garbage config db).1 in
      let old = is_garbage {P = P} db.now config.retention_days in
      (keep (λ e. not (old e)) db'.rows ≡ keep (λ e. not (old e)) db.rows)
      × (length db.rows ≤ length db'.rows + 5000)
      × (length (keep old db.rows) ≤ 5000 → All (λ e. old e ≡ false) db'.rows)
      × (db'.dead ≡ db.dead)
unfolding garbage
delete_garbage-keeps config db u keyed h =
    let old = is_garbage db.now config.retention_days in
    let ids = garbage config.retention_days db in
    let (rows, dead) = delete_ok config db u h in
    rw rows (
      keep-keep (λ e. not (old e)) (λ e. not (contains ids (uuid_of e))) db.rows
          (λ e i.
            not-swap (old e) (contains ids (uuid_of e)) (garbage-row 5000 old db.rows e keyed i)),
      omega (
        arith,
        length-split (λ e. contains ids (uuid_of e)) db.rows,
        length-hits ids db.rows keyed,
        length-map uuid_of (take 5000 (keep old db.rows)),
        length-take 5000 (keep old db.rows),
      ),
      (λ room. All-of_In _ (keep (λ e. not (contains ids (uuid_of e))) db.rows) λ e i.
          let (j, t) = In_of_keep _ e db.rows i in
          garbage-gone 5000 old db.rows e room j (not-true _ t)),
      dead,
    )

-- The row stands in a table with a primary key.
abbrev pub Standing : {P : Type 0} → Event P → Db P → Type 0
Standing e db = Keyed db.rows × Memᴰ e db.rows

not-false : (b : Bool) → b ≡ false → not b ≡ true
not-false b h = ground arith

module _ {P : Type 0} (config : OutboxConfig P) (e : Event P) (unsent : e.status ≢ sent) where
  delete_rows-Standing :
      (db : Db P) → Standing e db → Standing e (delete_rows config.retention_days db).1
  unfolding delete_rows garbage
  delete_rows-Standing db (keyed, i) =
      let old = is_garbage db.now config.retention_days in
      elim (Bool-cases (contains (garbage config.retention_days db) (uuid_of e))) [
        | inl t ↦
            let is_old = garbage-row 5000 old db.rows e keyed i t in absurd (unsent (ground arith))
        | inr f ↦ (Keyed-keep _ db.rows keyed, In-keep _ e db.rows i (not-false _ f))
      ]

  -- A cleanup leaves a row that is not `Sent`, whatever its outcome.
  pub delete_garbage-Standing :
      (db : Db P) → Standing e db → Standing e (delete_garbage config db).1
  unfolding delete_garbage
  delete_garbage-Standing =
      statement_keeps (Standing e) (λ db faults h. h) (delete_rows config.retention_days)
        delete_rows-Standing
