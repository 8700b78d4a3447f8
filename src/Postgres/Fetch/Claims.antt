-- ===== src/Postgres/Fetch/Claims.antt =====
-- The contract of `fetch_next_to_process` in outbox-postgres/src/lib.rs.
use oxide_outbox.Prelude.{
  ℕ, ◌≤◌, true, not, ◌≡◌, refl, sym, subst, ◌∙◌, ap, List, [], ◌∷◌, map, Memᴰ, All, All-of_In, keep,
  take, length, length-take, length-map, contains, arith, In_of_keep, In-keep, In-map, In_of_map,
}
use oxide_outbox.Prelude.Int.{later}
use oxide_outbox.Exec.{ok}
use oxide_outbox.Runtime.{Timestamp}
use oxide_outbox.Model.{Event, processing}
use oxide_outbox.Config.{OutboxConfig}
use oxide_outbox.Postgres.Sql.{Db, uuid_of, sort_by_lock}
use oxide_outbox.Postgres.{minute, candidates, selected, claim, fetch_next_to_process}
use oxide_outbox.Postgres.Fetch.{Keyed, Keyed-unique, hits, length-hits}
use oxide_outbox.Postgres.Fetch.Selection.{
  Claimable, Claimable-candidates, selected-Claimable, selected-all,
}

module _ {P : Type 0} (ids : List ℕ) (until : Timestamp) where
  uuids-claim :
      (rows : List (Event P)) → map uuid_of (map (claim ids until) rows) ≡ map uuid_of rows
  uuids-claim [] = refl
  uuids-claim (e ∷ es) = ground (arith, uuids-claim es)

  pub Keyed-claim : (rows : List (Event P)) → Keyed rows → Keyed (map (claim ids until) rows)
  Keyed-claim [] k = tt
  Keyed-claim (e ∷ es) k = ground (arith, uuids-claim es, Keyed-claim es k.1)

  others-claim :
      (rows : List (Event P))
      → keep (λ (e : Event P). not (contains ids (uuid_of e))) (map (claim ids until) rows)
        ≡ keep (λ (e : Event P). not (contains ids (uuid_of e))) rows
  others-claim [] = refl
  others-claim (e ∷ es) = ground (arith, others-claim es)

module _ {P : Type 0} (config : OutboxConfig P) (limit : ℕ) (db : Db P) where
  abbrev pub until : Timestamp
  until = later db.now minute config.lock_timeout_mins

  abbrev pub claimed_rows : List (Event P)
  claimed_rows = map (claim (selected limit db) until) db.rows

  -- What a fetch that succeeds returns and leaves.
  pub fetch_ok :
      (es : List (Event P))
      → (fetch_next_to_process config limit db).0 ≡ ok es
      → let db' = (fetch_next_to_process config limit db).1 in
        (es ≡ hits (selected limit db) claimed_rows)
        × (db'.rows ≡ claimed_rows)
        × (db'.dead ≡ db.dead)
        × (db'.now ≡ db.now)
        × (db'.row_locked ≡ db.row_locked)
  unfolding fetch_next_to_process selected candidates
  fetch_ok es h = ground arith

  -- A row that comes back is the claimed form of a row of the table that could be claimed.
  abbrev pub ClaimOf : Event P → Type 0
  ClaimOf e =
      (old : Event P) × Memᴰ old db.rows
      × Claimable db old
      × (e ≡ record old { status = processing; locked_until = until })

  hit-ClaimOf :
      (e old : Event P)
      → Keyed db.rows
      → Memᴰ old db.rows
      → contains (selected limit db) (uuid_of e) ≡ true
      → e ≡ claim (selected limit db) until old
      → ClaimOf e
  hit-ClaimOf e old keyed i h q =
      let same : uuid_of e ≡ uuid_of old = ground (arith, ap uuid_of q) in
      let (c, j, r, claimable) = selected-Claimable limit db (uuid_of e) h in
      let one = Keyed-unique db.rows c old keyed j i (r ∙ same) in
      (old, i, rw one at claimable, ground (arith, same))

  length-selected : length (selected limit db) ≤ limit
  unfolding selected
  length-selected = omega (
    arith,
    length-map uuid_of (take limit (sort_by_lock (candidates db))),
    length-take limit (sort_by_lock (candidates db)),
  )

  -- A fetch that succeeds returns at most `limit` rows, and each is a row of the table that was
  -- pending, or in processing with a lock that had run out, and that no other transaction held; it
  -- comes back as `Processing`, locked for `lock_timeout_mins` from now, and otherwise unchanged.
  -- The table has a primary key.
  pub fetch-ClaimOf :
      (es : List (Event P))
      → Keyed db.rows
      → (fetch_next_to_process config limit db).0 ≡ ok es
      → All ClaimOf es × (length es ≤ limit)
  fetch-ClaimOf es keyed h =
      let returned = (fetch_ok es h).0 in
      (
        rw returned (
            All-of_In ClaimOf (hits (selected limit db) claimed_rows) λ e i.
              let (j, hit) = In_of_keep _ e claimed_rows i in
              let (old, k, q) = In_of_map (claim (selected limit db) until) e db.rows j in
              hit-ClaimOf e old keyed k hit q),
        omega (
          arith,
          ap (λ (l : List (Event P)). length l) returned,
          length-hits (selected limit db) claimed_rows
              (Keyed-claim (selected limit db) until db.rows keyed),
          length-selected,
        ),
      )

  -- A fetch that succeeds changes no row but those that its inner `SELECT` names, adds and removes
  -- none, and touches no dead letter.
  fetch_keeps :
      (es : List (Event P))
      → (fetch_next_to_process config limit db).0 ≡ ok es
      → let db' = (fetch_next_to_process config limit db).1 in
        let others = keep (λ (e : Event P). not (contains (selected limit db) (uuid_of e))) in
        (others db'.rows ≡ others db.rows)
        × (map uuid_of db'.rows ≡ map uuid_of db.rows)
        × (db'.dead ≡ db.dead)
  fetch_keeps es h =
      let (_, rows, dead, _, _) = fetch_ok es h in
      (
        rw rows (others-claim (selected limit db) until db.rows),
        rw rows (uuids-claim (selected limit db) until db.rows),
        dead,
      )

  -- Where there is room for them, a fetch that succeeds claims every row that may be claimed.
  pub fetch_all :
      (es : List (Event P))
      → (fetch_next_to_process config limit db).0 ≡ ok es
      → length (candidates db) ≤ limit
      → (e : Event P) → Memᴰ e db.rows
      → Claimable db e
      → Memᴰ (record e { status = processing; locked_until = until }) es
  fetch_all es h room e i c =
      let ids = selected limit db in
      let hit = selected-all limit db e room (Claimable-candidates db e i c) in
      let q : claim ids until e ≡ record e { status = processing; locked_until = until } = rw hit in
      let stays : contains ids (uuid_of (claim ids until e)) ≡ true = rw hit hit in
      subst (λ l. Memᴰ (record e { status = processing; locked_until = until }) l)
        (sym (fetch_ok es h).0)
        (subst (λ (x : Event P). Memᴰ x (hits ids claimed_rows)) q
          (In-keep (λ x. contains ids (uuid_of x)) _ claimed_rows
            (In-map (claim ids until) e db.rows i) stays))
