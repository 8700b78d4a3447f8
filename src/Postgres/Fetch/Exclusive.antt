-- ===== src/Postgres/Fetch/Exclusive.antt =====
-- The lock of `fetch_next_to_process` in outbox-postgres/src/lib.rs: who may claim a row next.
use oxide_outbox.Prelude.{
  ℕ, ◌≤◌, true, false, ◌≡◌, subst, ◌∙◌, inl, inr, List, map, Memᴰ, All, All-of_In, contains, arith,
  Bool-cases, In_of_keep, In_of_map, contains-hits,
}
use oxide_outbox.Exec.{ok}
use oxide_outbox.Model.{Event}
use oxide_outbox.Config.{OutboxConfig}
use oxide_outbox.Postgres.Sql.{Db, uuid_of}
use oxide_outbox.Postgres.{eligible, selected, claim, fetch_next_to_process}
use oxide_outbox.Postgres.Fetch.{hits}
use oxide_outbox.Postgres.Fetch.Claims.{until, claimed_rows, fetch_ok}
use oxide_outbox.Postgres.Fetch.Selection.{selected-Claimable}

module _ {P : Type 0} (config : OutboxConfig P) (limit : ℕ) (db : Db P) where
  claimed_ineligible :
      (ids : List ℕ) (later now : ℕ) (e : Event P)
      → contains ids (uuid_of e) ≡ true
      → now ≤ later
      → eligible now (claim ids later e) ≡ false
  claimed_ineligible ids later now e h le = ground arith

  -- A row of the claimed table that is eligible before the locks run out was not claimed.
  unclaimed :
      (now : ℕ) (e : Event P)
      → now ≤ until config limit db
      → Memᴰ e (claimed_rows config limit db)
      → eligible now e ≡ true
      → contains (selected limit db) (uuid_of e) ≡ false
  unclaimed now e le i h =
      let (old, j, q) = In_of_map (claim (selected limit db) (until config limit db)) e db.rows i in
      elim (Bool-cases (contains (selected limit db) (uuid_of old))) [
        | inl hit ↦ absurd (
            ground (
              arith,
              q,
              claimed_ineligible (selected limit db) (until config limit db) now old hit le,
            ))
        | inr miss ↦ ground (arith, q)
      ]

  -- No row is claimed twice: while the locks of one fetch hold, a fetch by any worker, with any
  -- limit and configuration, from the table that the first one left, returns none of its rows. In
  -- between the clock may move to any time up to the end of the locks, and other transactions may
  -- lock rows and the connection fail, but nothing else writes the table.
  pub fetch-exclusive :
      (config' : OutboxConfig P) (limit' : ℕ) (db' : Db P) (es es' : List (Event P))
      → (fetch_next_to_process config limit db).0 ≡ ok es
      → db'.rows ≡ (fetch_next_to_process config limit db).1.rows
      → db'.now ≤ until config limit db
      → (fetch_next_to_process config' limit' db').0 ≡ ok es'
      → All (λ (e : Event P). contains (map uuid_of es) (uuid_of e) ≡ false) es'
  fetch-exclusive config' limit' db' es es' h same le h' =
      let ids = selected limit db in
      let first = fetch_ok config limit db es h in
      let second = fetch_ok config' limit' db' es' h' in
      let after = claimed_rows config' limit' db' in
      rw (first.0, second.0)
        (All-of_In (λ (e : Event P). _) (hits (selected limit' db') after)
          λ e i.
            let (_, hit) = In_of_keep _ e after i in
            let (c, j, q, claimable) = selected-Claimable limit' db' (uuid_of e) hit in
            contains-hits uuid_of ids (uuid_of e) (claimed_rows config limit db) (
              subst (λ k. contains ids k ≡ false) q
                (unclaimed db'.now c le (subst (λ l. Memᴰ c l) (same ∙ first.1) j) claimable.0)))
