-- ===== src/Postgres/Quarantine.antt =====
-- `quarantine_events` in outbox-postgres/src/lib.rs: rows move to the dead letters.
use mathlib.Core.List.{append_assoc}
use mathlib.Core.List.Memᴰ.{head, tail}
use oxide_outbox.Prelude.{
  ℕ, ◌+◌, Bool, true, false, not, ◌≡◌, refl, sym, subst, ap, inl, inr, List, [], ◌∷◌, ◌++◌, map,
  Memᴰ, keep, length, length-append, contains, arith, Bool-cases, In-keep, In-append-left,
  In-append-right, ◌==◌,
}
use oxide_outbox.Exec.{OutboxError, ok, err}
use oxide_outbox.Exec.Laws.{Returns}
use oxide_outbox.Object.EventId.{as_uuid}
use oxide_outbox.Runtime.{Timestamp}
use oxide_outbox.Model.{Event, DlqEntry}
use oxide_outbox.Postgres.Sql.{Db, DeadLetter, uuid_of, any_duplicate}
use oxide_outbox.Postgres.Garbage.{length-split}
use oxide_outbox.Postgres.{
  failure_count_column, join_entries, join_all, dead_id, move_rows, quarantine_events,
}

abbrev pub entry_uuid : DlqEntry → ℕ
entry_uuid f = as_uuid f.id

-- The dead letter that an entry makes of a row.
abbrev pub letter : {P : Type 0} → Timestamp → Event P → DlqEntry → DeadLetter P
letter now e f = record {
  event = e;
  failure_count = failure_count_column f.failure_count;
  last_error = f.last_error;
  quarantined_at = now;
}

module _ {P : Type 0} where
  any_duplicate-append :
      (xs ys : List (DeadLetter P))
      → any_duplicate (map dead_id (xs ++ ys)) ≡ false
      → any_duplicate (map dead_id ys) ≡ false
  any_duplicate-append [] ys h = h
  any_duplicate-append (x ∷ xs) ys h = ground (arith, any_duplicate-append xs ys)

module _ {P : Type 0} (now : Timestamp) where
  letters_absent :
      (d : Event P) (fs : List DlqEntry) (rest : List (DeadLetter P))
      → contains (map dead_id (join_entries now d fs ++ rest)) (uuid_of d) ≡ false
      → length (join_entries now d fs) ≡ 0
  letters_absent d [] rest n = refl
  letters_absent d (f ∷ fs) rest n = ground (arith, letters_absent d fs rest)

  -- An unbroken unique index has one letter for each row that is named.
  letters_once :
      (d : Event P) (fs : List DlqEntry) (rest : List (DeadLetter P))
      → contains (map entry_uuid fs) (uuid_of d) ≡ true
      → any_duplicate (map dead_id (join_entries now d fs ++ rest)) ≡ false
      → length (join_entries now d fs) ≡ 1
  letters_once d [] rest n h = cc
  letters_once d (f ∷ fs) rest n h =
      ground (arith, letters_once d fs rest, letters_absent d fs rest)

  abbrev pub named : List DlqEntry → List (Event P) → List (Event P)
  named fs rows = keep (λ e. contains (map entry_uuid fs) (uuid_of e)) rows

  length-letters :
      (rows : List (Event P)) (fs : List DlqEntry) (rest : List (DeadLetter P))
      → any_duplicate (map dead_id (join_all now (named fs rows) fs ++ rest)) ≡ false
      → length (join_all now (named fs rows) fs) ≡ length (named fs rows)
  length-letters [] fs rest h = refl
  length-letters (d ∷ ds) fs rest h = elim (Bool-cases (contains (map entry_uuid fs) (uuid_of d))) [
    | inl t ↦
        let first = join_entries now d fs in
        let others = join_all now (named fs ds) fs in
        let index : any_duplicate (map dead_id (first ++ (others ++ rest))) ≡ false =
          rw (t, append_assoc first others rest) at h in
        rw t (
          omega (
            arith,
            length-append first others,
            letters_once d fs (others ++ rest) t index,
            length-letters ds fs rest (any_duplicate-append first (others ++ rest) index),
          ))
    | inr n ↦ rw n (length-letters ds fs rest (rw n at h))
  ]

  -- A named row has a letter, with the columns of an entry that names it.
  In-letters :
      (d : Event P) (fs : List DlqEntry)
      → contains (map entry_uuid fs) (uuid_of d) ≡ true
      → (f : DlqEntry) × Memᴰ f fs
        × (entry_uuid f ≡ uuid_of d)
        × Memᴰ (letter now d f) (join_entries now d fs)
  In-letters d [] n = cc
  In-letters d (f ∷ fs) n = elim (Bool-cases (uuid_of d == entry_uuid f)) [
    | inl t ↦ (f, head refl, ground arith, rw t (head refl))
    | inr miss ↦ let (g, i, q, j) = In-letters d fs (ground arith) in (g, tail i, q, rw miss j)
  ]

  pub In-all_letters :
      (d : Event P) (rows : List (Event P)) (fs : List DlqEntry)
      → Memᴰ d rows
      → contains (map entry_uuid fs) (uuid_of d) ≡ true
      → (f : DlqEntry) × Memᴰ f fs
        × (entry_uuid f ≡ uuid_of d)
        × Memᴰ (letter now d f) (join_all now (named fs rows) fs)
  In-all_letters d rows fs i n =
      let (f, j, q, k) = In-letters d fs n in
      (f, j, q, spread (named fs rows) f (In-keep _ d rows i n) k)
    where
      spread :
          (ds : List (Event P)) (f : DlqEntry)
          → Memᴰ d ds
          → Memᴰ (letter now d f) (join_entries now d fs)
          → Memᴰ (letter now d f) (join_all now ds fs)
      spread [] f i k = elim i [ ]
      spread (e ∷ es) f (head p) k =
          In-append-left _ (join_entries now e fs) _
            (subst (λ (x : Event P). Memᴰ (letter now d f) (join_entries now x fs)) p k)
      spread (e ∷ es) f (tail i) k = In-append-right _ (join_entries now e fs) _ (spread es f i k)

keep-all : {P : Type 0} (rows : List (Event P)) → keep (λ e. true) rows ≡ rows
keep-all [] = refl
keep-all (e ∷ es) = ap (λ l. e ∷ l) (keep-all es)

-- What a quarantine with entries that succeeds leaves.
moved :
    {P : Type 0} (f : DlqEntry) (fs : List DlqEntry) (db : Db P) (u : Unit {0})
    → (quarantine_events (f ∷ fs) db).0 ≡ ok u
    → let db' = (quarantine_events (f ∷ fs) db).1 in
      let letters = join_all db.now (named db.now (f ∷ fs) db.rows) (f ∷ fs) in
      (db'.rows ≡ keep (λ e. not (contains (map entry_uuid (f ∷ fs)) (uuid_of e))) db.rows)
      × (db'.dead ≡ letters ++ db.dead)
      × (any_duplicate (map dead_id (letters ++ db.dead)) ≡ false)
unfolding quarantine_events move_rows
moved f fs db u h = ground arith

-- Whether the entries name a row.
abbrev pub is_named : {P : Type 0} → List DlqEntry → Event P → Bool
is_named fs e = contains (map entry_uuid fs) (uuid_of e)

-- A quarantine that succeeds loses and doubles nothing: the two tables hold as many rows together
-- as before. The rows that no entry names stay, in their order, and so do the dead letters; each
-- named row of the table is a dead letter now, stamped with the server's time and with the failure
-- count, cut to 32 bits, and the last error of an entry that names it.
pub quarantine_events-moves :
    {P : Type 0} (fs : List DlqEntry) (db : Db P) (u : Unit {0})
    → (quarantine_events fs db).0 ≡ ok u
    → let db' = (quarantine_events fs db).1 in
      (length db'.rows + length db'.dead ≡ length db.rows + length db.dead)
      × (db'.rows ≡ keep (λ e. not (is_named fs e)) db.rows)
      × ((l : DeadLetter P) → Memᴰ l db.dead → Memᴰ l db'.dead)
      × ((e : Event P)
          → Memᴰ e db.rows
          → is_named fs e ≡ true
          → (f : DlqEntry) × Memᴰ f fs
            × (entry_uuid f ≡ uuid_of e)
            × Memᴰ (letter db.now e f) db'.dead)
unfolding quarantine_events
quarantine_events-moves [] db u h = (refl, sym (keep-all db.rows), (λ l i. i), (λ e i n. cc))
quarantine_events-moves (f ∷ fs) db u h =
    let (rows, dead, index) = moved f fs db u h in
    let letters = join_all db.now (named db.now (f ∷ fs) db.rows) (f ∷ fs) in
    rw (rows, dead)
      (
        omega (
          arith,
          length-letters db.now db.rows (f ∷ fs) db.dead index,
          length-append letters db.dead,
          length-split (is_named (f ∷ fs)) db.rows,
        ),
        refl,
        (λ l i. In-append-right l letters db.dead i),
        (λ e i n.
            let (g, j, q, k) = In-all_letters db.now e db.rows (f ∷ fs) i n in
            (g, j, q, In-append-left _ letters db.dead k)),
      )

-- A quarantine that fails, by the connection or by the unique index of the dead letters, leaves
-- both tables as they were.
pub quarantine_events-atomic :
    {P : Type 0} (fs : List DlqEntry) (db : Db P) (x : OutboxError)
    → (quarantine_events fs db).0 ≡ err x
    → let db' = (quarantine_events fs db).1 in (db'.rows ≡ db.rows) × (db'.dead ≡ db.dead)
unfolding quarantine_events move_rows
quarantine_events-atomic fs db x h = ground arith

pub quarantine_events-Returns :
    {P : Type 0} (fs : List DlqEntry) → Returns (quarantine_events {P = P} fs)
unfolding quarantine_events move_rows
quarantine_events-Returns fs db m q = ground arith
