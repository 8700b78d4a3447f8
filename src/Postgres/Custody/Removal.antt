-- ===== src/Postgres/Custody/Removal.antt =====
-- Custody through the two statements that take rows away: `delete_garbage` and `quarantine_events`.
use oxide_outbox.Prelude.{
  ℕ, Bool, true, false, not, ◌≡◌, subst, inl, inr, List, ◌++◌, map, keep, take, contains, arith,
  Bool-cases, In_of_keep, In_of_take, contains-map, contains_of_In, In-append-left, In-append-right,
}
use oxide_outbox.Prelude.Int.{ℤ}
use oxide_outbox.Runtime.{Timestamp}
use oxide_outbox.Model.{Event, sent, DlqEntry}
use oxide_outbox.Postgres.Sql.{Db, DeadLetter, uuid_of, any_duplicate}
use oxide_outbox.Postgres.{is_garbage, garbage, delete_rows, move_rows, dead_id, join_all}
use oxide_outbox.Postgres.Quarantine.{entry_uuid, named, letter, In-all_letters}
use oxide_outbox.Postgres.Custody.{Honest, Held, InCustody, Honest-keep, kept_or_dropped}

of_not : (b : Bool) → not b ≡ false → b ≡ true
of_not b h = ground arith

garbage-sent :
    {P : Type 0} (now : Timestamp) (days : ℤ) (e : Event P)
    → is_garbage now days e ≡ true
    → e.status ≡ sent
garbage-sent now days e h = ground arith

module _ {P : Type 0} (D : ℕ → Type 0) where
  -- A deleted identifier was delivered.
  garbage-delivered :
      (days : ℤ) (k : ℕ) (db : Db P) → Honest D db.rows → contains (garbage days db) k ≡ true → D k
  unfolding garbage
  garbage-delivered days k db h t =
      let (c, i, q) =
        contains-map uuid_of k (take 5000 (keep (is_garbage db.now days) db.rows)) t in
      let (j, old) =
        In_of_keep (is_garbage db.now days) c db.rows
          (In_of_take 5000 c (keep (is_garbage db.now days) db.rows) i) in
      subst D q (h c j (garbage-sent db.now days c old))

  pub delete_rows-InCustody :
      (days : ℤ) (k : ℕ) (db : Db P) → InCustody D k db → InCustody D k (delete_rows days db).1
  unfolding delete_rows
  delete_rows-InCustody days k db h = (Honest-keep D _ db.rows h.0, held h.1)
    where
      ids : List ℕ
      ids = garbage days db

      held : Held D k db → Held D k (delete_rows days db).1
      held (inl t) = elim (kept_or_dropped D (λ e. not (contains ids (uuid_of e))) k db.rows t) [
        | inl stays ↦ inl stays
        | inr (e, i, q, gone) ↦
            inr (inr (subst D q (garbage-delivered days (uuid_of e) db h.0 (of_not _ gone))))
      ]
      held (inr o) = inr o

  pub move_rows-InCustody :
      (fs : List DlqEntry) (k : ℕ) (db : Db P)
      → InCustody D k db
      → InCustody D k (move_rows fs db).1
  unfolding move_rows
  move_rows-InCustody fs k db h =
      elim (Bool-cases (any_duplicate (map dead_id (letters ++ db.dead)))) [
        | inl t ↦ rw t h
        | inr n ↦ rw n (Honest-keep D _ db.rows h.0, held h.1)
      ]
    where
      letters : List (DeadLetter P)
      letters = join_all db.now (named db.now fs db.rows) fs

      after : Db P
      after = record db {
        rows = keep (λ e. not (contains (map entry_uuid fs) (uuid_of e))) db.rows;
        dead = letters ++ db.dead;
      }

      held : Held D k db → Held D k after
      held (inl t) =
          elim (kept_or_dropped D (λ e. not (contains (map entry_uuid fs) (uuid_of e))) k db.rows
            t) [
              | inl stays ↦ inl stays
              | inr (e, i, q, gone) ↦
                  let (f, _, _, j) = In-all_letters db.now e db.rows fs i (of_not _ gone) in
                  inr (
                    inl (
                      subst (λ j. contains (map dead_id (letters ++ db.dead)) j ≡ true) q
                        (contains_of_In dead_id (letter db.now e f) (letters ++ db.dead)
                          (In-append-left _ letters db.dead j))))
            ]
      held (inr (inl t)) =
          let (l, i, q) = contains-map dead_id k db.dead t in
          inr (
            inl (
              subst (λ j. contains (map dead_id (letters ++ db.dead)) j ≡ true) q
                (contains_of_In dead_id l (letters ++ db.dead)
                  (In-append-right l letters db.dead i))))
      held (inr (inr d)) = inr (inr d)
