-- ===== src/Postgres/Fetch/Backlog.antt =====
-- How `fetch_next_to_process` in outbox-postgres/src/lib.rs works through its backlog.
use oxide_outbox.Prelude.{
  ℕ, ◌≤◌, ◌<◌, Bool, true, false, not, ◌&&◌, ◌≡◌, ◌≢◌, refl, sym, subst, ◌∙◌, ap, inl, inr, List,
  [], ◌∷◌, map, Memᴰ, keep, length, contains, arith, Bool-cases, In-keep, In-map, contains_of_In,
  contains-hits, length-keep_strict,
}
use oxide_outbox.Prelude.Int.{pos}
use oxide_outbox.Exec.{ok}
use oxide_outbox.Model.{Event}
use oxide_outbox.Config.{OutboxConfig}
use oxide_outbox.Postgres.Sql.{Db, uuid_of}
use oxide_outbox.Postgres.{eligible, candidates, selected, claim, fetch_next_to_process}
use oxide_outbox.Postgres.Fetch.{Keyed, Keyed-unique, hits}
use oxide_outbox.Postgres.Fetch.Claims.{until, claimed_rows, fetch_ok}
use oxide_outbox.Postgres.Fetch.Selection.{
  Claimable, Claimable-candidates, selected-Claimable, selected-oldest, selected-row,
}

both_of : (x y : Bool) → x ≡ true → y ≡ false → (x && not y) ≡ true
both_of x y p q = ground arith

module _ {P : Type 0} where
  pub length-keep-map :
      (p : Event P → Bool) (f : Event P → Event P) (rows : List (Event P))
      → length (keep p (map f rows)) ≡ length (keep (λ e. p (f e)) rows)
  length-keep-map p f [] = refl
  length-keep-map p f (e ∷ es) = ground (arith, length-keep-map p f es)

  -- A row that comes back has a selected identifier.
  some_hit :
      (ids : List ℕ) (rows : List (Event P))
      → hits ids rows ≢ []
      → (e : Event P) × (contains ids (uuid_of e) ≡ true)
  some_hit ids [] h = absurd (h refl)
  some_hit ids (e ∷ es) h = elim (Bool-cases (contains ids (uuid_of e))) [
    | inl t ↦ (e, t)
    | inr n ↦ some_hit ids es (λ q. h (rw n q))
  ]

  -- Claimed rows are not eligible until their locks have run out.
  still_eligible :
      (ids : List ℕ) (now end : ℕ) (locked : ℕ → Bool) (e : Event P)
      → now ≤ end
      → (eligible now (claim ids end e) && not (locked (uuid_of (claim ids end e)))) ≡ true
      → (eligible now e && not (locked (uuid_of e))) ≡ true
  still_eligible ids now end locked e le h = ground arith

  no_longer :
      (ids : List ℕ) (now end : ℕ) (locked : ℕ → Bool) (e : Event P)
      → now ≤ end
      → contains ids (uuid_of e) ≡ true
      → (eligible now (claim ids end e) && not (locked (uuid_of (claim ids end e)))) ≡ false
  no_longer ids now end locked e le h = ground arith

module _ {P : Type 0} (config : OutboxConfig P) (limit : ℕ) (db : Db P) where
  -- Every fetch that returns rows leaves fewer to claim, as long as the configured lock time is not
  -- negative: so the worker's drain of the table comes to an end.
  pub fetch_shrinks :
      (es : List (Event P)) (mins : ℕ)
      → config.lock_timeout_mins ≡ pos mins
      → (fetch_next_to_process config limit db).0 ≡ ok es
      → es ≢ []
      → length (candidates (fetch_next_to_process config limit db).1) < length (candidates db)
  unfolding candidates
  fetch_shrinks es mins m h some_rows =
      let ids = selected limit db in
      let end = until config limit db in
      let (returned, rows, _, now, locked) = fetch_ok config limit db es h in
      let le : db.now ≤ end = rw m (omega arith) in
      let (e, hit) = some_hit ids (claimed_rows config limit db) (λ q. some_rows (returned ∙ q)) in
      let (c, i, q, claimable) = selected-Claimable limit db (uuid_of e) hit in
      rw (rows, now, locked)
        (rw (length-keep-map _ (claim ids end) db.rows) (
          length-keep_strict _ _ (λ a. still_eligible ids db.now end db.row_locked a le) c db.rows i
            (both_of _ _ claimable.0 claimable.1)
            (no_longer ids db.now end db.row_locked c le
              (subst (λ k. contains ids k ≡ true) (sym q) hit))))

  -- Returned and selected identifiers agree on the rows of the table.
  returned-selected :
      (es : List (Event P)) (k : ℕ)
      → es ≡ hits (selected limit db) (claimed_rows config limit db)
      → contains (map uuid_of es) k ≡ true
      → contains (selected limit db) k ≡ true
  returned-selected es k q h = ground (
    arith,
    ap (λ l. contains (map uuid_of l) k) q,
    contains-hits uuid_of (selected limit db) k (claimed_rows config limit db),
  )

  selected-returned :
      (es : List (Event P)) (a : Event P)
      → es ≡ hits (selected limit db) (claimed_rows config limit db)
      → Memᴰ a db.rows
      → contains (selected limit db) (uuid_of a) ≡ true
      → contains (map uuid_of es) (uuid_of a) ≡ true
  selected-returned es a q i h =
      let ids = selected limit db in
      let made = claim ids (until config limit db) a in
      let same : uuid_of made ≡ uuid_of a = ground arith in
      let stays : contains ids (uuid_of made) ≡ true =
        subst (λ k. contains ids k ≡ true) (sym same) h in
      subst (λ l. contains (map uuid_of l) (uuid_of a) ≡ true) (sym q)
        (subst (λ k. contains (map uuid_of (hits ids (claimed_rows config limit db))) k ≡ true) same
          (contains_of_In uuid_of made (hits ids (claimed_rows config limit db)) (
            In-keep (λ x. contains ids (uuid_of x)) made (claimed_rows config limit db)
              (In-map (claim ids (until config limit db)) a db.rows i) stays)))

  -- The oldest locks first: of two rows that may be claimed, one returned and one passed over, the
  -- returned one's `locked_until` is no later. The table has a primary key.
  pub fetch_oldest :
      (es : List (Event P)) (a b : Event P)
      → Keyed db.rows
      → (fetch_next_to_process config limit db).0 ≡ ok es
      → Memᴰ a db.rows
      → Memᴰ b db.rows
      → Claimable db b
      → contains (map uuid_of es) (uuid_of a) ≡ true
      → contains (map uuid_of es) (uuid_of b) ≡ false
      → a.locked_until ≤ b.locked_until
  fetch_oldest es a b keyed h i j claimable returned passed =
      let q = (fetch_ok config limit db es h).0 in
      let (c, k, same, row) =
        selected-row limit db (uuid_of a) (returned-selected es (uuid_of a) q returned) in
      let one = Keyed-unique db.rows c a keyed row i same in
      subst (λ (x : Event P). x.locked_until ≤ b.locked_until) one
        (selected-oldest limit db c b k (Claimable-candidates db b j claimable)
          (elim (Bool-cases (contains (selected limit db) (uuid_of b))) [
            | inl t ↦ absurd (ground (arith, selected-returned es b q j t))
            | inr n ↦ n
          ]))
