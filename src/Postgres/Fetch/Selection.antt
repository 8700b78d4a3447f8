-- ===== src/Postgres/Fetch/Selection.antt =====
-- The inner `SELECT` of `fetch_next_to_process`: `ORDER BY locked_until ASC LIMIT $1`.
use mathlib.Core.List.Memᴰ.{head}
use oxide_outbox.Prelude.{
  ℕ, zero, suc, refl, List, [], ◌∷◌, ◌≤◌, Bool, true, false, not, ◌&&◌, ◌≡◌, inl, inr, Memᴰ, take,
  length, contains, arith, In-keep, In_of_keep, In_of_take, In-take, contains-map, contains_of_In,
}
use oxide_outbox.Model.{Event}
use oxide_outbox.Postgres.Sql.{Db, uuid_of, sort_by_lock}
use oxide_outbox.Postgres.Fetch.Sorting.{In_of_sort, In-sort, sort-Rises, take-Rises, length-sort}
use oxide_outbox.Postgres.{eligible, candidates, selected}

both : (x y : Bool) → (x && not y) ≡ true → (x ≡ true) × (y ≡ false)
both x y h = ground arith

both_of : (x y : Bool) → x ≡ true → y ≡ false → (x && not y) ≡ true
both_of x y p q = ground arith

module _ {P : Type 0} where
  -- What the statement may claim.
  abbrev pub Claimable : Db P → Event P → Type 0
  Claimable db e = (eligible db.now e ≡ true) × (db.row_locked (uuid_of e) ≡ false)

  candidates-Claimable :
      (db : Db P) (e : Event P) → Memᴰ e (candidates db) → Memᴰ e db.rows × Claimable db e
  unfolding candidates
  candidates-Claimable db e i = let (j, h) = In_of_keep _ e db.rows i in (j, both _ _ h)

  pub Claimable-candidates :
      (db : Db P) (e : Event P) → Memᴰ e db.rows → Claimable db e → Memᴰ e (candidates db)
  unfolding candidates
  Claimable-candidates db e i h = In-keep _ e db.rows i (both_of _ _ h.0 h.1)

  -- A selected identifier is that of a row that may be claimed.
  pub selected-Claimable :
      (limit : ℕ) (db : Db P) (k : ℕ)
      → contains (selected limit db) k ≡ true
      → (e : Event P) × Memᴰ e db.rows × (uuid_of e ≡ k) × Claimable db e
  unfolding selected
  selected-Claimable limit db k h =
      let (e, i, q) = contains-map uuid_of k (take limit (sort_by_lock (candidates db))) h in
      let (j, c) =
        candidates-Claimable db e
          (In_of_sort e (candidates db) (In_of_take limit e (sort_by_lock (candidates db)) i)) in
      (e, j, q, c)

  -- The same row, where it stands in the prefix.
  pub selected-row :
      (limit : ℕ) (db : Db P) (k : ℕ)
      → contains (selected limit db) k ≡ true
      → (e : Event P) × Memᴰ e (take limit (sort_by_lock (candidates db)))
        × (uuid_of e ≡ k)
        × Memᴰ e db.rows
  unfolding selected
  selected-row limit db k h =
      let (e, i, q) = contains-map uuid_of k (take limit (sort_by_lock (candidates db))) h in
      (
        e,
        i,
        q,
        (candidates-Claimable db e
            (In_of_sort e (candidates db) (In_of_take limit e (sort_by_lock (candidates db)) i))).0,
      )

  -- With room for all of them, every row that may be claimed is selected.
  pub selected-all :
      (limit : ℕ) (db : Db P) (e : Event P)
      → length (candidates db) ≤ limit
      → Memᴰ e (candidates db)
      → contains (selected limit db) (uuid_of e) ≡ true
  unfolding selected
  selected-all limit db e h i = contains_of_In uuid_of e _ (
      In-take limit e (sort_by_lock (candidates db)) (omega (arith, length-sort (candidates db)))
        (In-sort e (candidates db) i))

  -- What is passed over is locked no longer ago than anything selected.
  pub selected-oldest :
      (limit : ℕ) (db : Db P) (a b : Event P)
      → Memᴰ a (take limit (sort_by_lock (candidates db)))
      → Memᴰ b (candidates db)
      → contains (selected limit db) (uuid_of b) ≡ false
      → a.locked_until ≤ b.locked_until
  unfolding selected
  selected-oldest limit db a b i j h =
      elim (take-Rises limit (sort_by_lock (candidates db)) a b (sort-Rises (candidates db)) i
        (In-sort b (candidates db) j)) [
          | inl k ↦ absurd (
              ground
                (arith, contains_of_In uuid_of b (take limit (sort_by_lock (candidates db))) k))
          | inr le ↦ le
        ]

  some_taken :
      (limit : ℕ) (e : Event P) (l : List (Event P))
      → 1 ≤ limit
      → Memᴰ e l
      → (f : Event P) × Memᴰ f (take limit l)
  some_taken limit e [] one i = elim i [ ]
  some_taken zero e (x ∷ xs) one i = absurd (omega arith)
  some_taken (suc n) e (x ∷ xs) one i = (x, head refl)

  -- With room for one row, some row is selected where one may be claimed.
  pub selected_some :
      (limit : ℕ) (db : Db P) (e : Event P)
      → 1 ≤ limit
      → Memᴰ e (candidates db)
      → (f : Event P) × Memᴰ f db.rows × (contains (selected limit db) (uuid_of f) ≡ true)
  unfolding selected
  selected_some limit db e one i =
      let (f, j) =
        some_taken limit e (sort_by_lock (candidates db)) one (In-sort e (candidates db) i) in
      let k = In_of_sort f (candidates db) (In_of_take limit f (sort_by_lock (candidates db)) j) in
      (
        f,
        (candidates-Claimable db f k).0,
        contains_of_In uuid_of f (take limit (sort_by_lock (candidates db))) j,
      )
