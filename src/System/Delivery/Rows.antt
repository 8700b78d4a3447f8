-- ===== src/System/Delivery/Rows.antt =====
-- What a batch of processor.rs on PostgreSQL makes of one row: it delivers it, or leaves it waiting.
use oxide_outbox.Prelude.{
  ℕ, ◌≤◌, Bool, true, false, ◌≡◌, refl, sym, subst, ◌∙◌, ap, ◌⊎◌, inl, inr, List, [], ◌∷◌, map,
  Memᴰ, length, contains, arith, In-map, In-keep, In_of_keep, Bool-cases, contains-hits,
}
use oxide_outbox.Object.EventId.{EventId, as_uuid}
use oxide_outbox.Runtime.{Shutdown, Timestamp}
use oxide_outbox.Traits.{Transport}
use oxide_outbox.Model.{Event, processing, sent}
use oxide_outbox.Config.{OutboxConfig}
use oxide_outbox.Processor.Delivered.{IsTopic, IsSmooth, IsWelcome}
use oxide_outbox.Postgres.Sql.{Db, uuid_of}
use oxide_outbox.Postgres.{set_status, claim, selected}
use oxide_outbox.Postgres.Fetch.{Keyed, Keyed-unique, hits}
use oxide_outbox.Postgres.Fetch.Claims.{until, claimed_rows}
use oxide_outbox.Postgres.Fetch.Selection.{
  Claimable, Claimable-candidates, selected-Claimable, selected_some,
}
use oxide_outbox.System.Batch.{IsMarked}
use oxide_outbox.System.Delivery.{site_batch, site_batch-Published}
use oxide_outbox.System.Delivery.Accepted.{marked_row}
use oxide_outbox.System.Cluster.{Site}

unclaimed :
    {P : Type 0} (ids : List ℕ) (t : Timestamp) (e : Event P)
    → contains ids (uuid_of e) ≡ false
    → claim ids t e ≡ e
unclaimed ids t e h = rw h refl

unmarked :
    {P : Type 0} (ids : List ℕ) (e : Event P)
    → contains ids (uuid_of e) ≡ false
    → set_status ids sent e ≡ e
unmarked ids e h = rw h refl

still_sent : {P : Type 0} (ids : List ℕ) (e : Event P) → e.status ≡ sent → set_status ids sent e ≡ e
still_sent ids e h = elim (Bool-cases (contains ids (uuid_of e))) [
  | inl t ↦ rw t (ground arith)
  | inr n ↦ rw n refl
]

length_some : {P : Type 0} (e : Event P) (es : List (Event P)) → Memᴰ e es → 1 ≤ length es
length_some e [] i = elim i [ ]
length_some e (x ∷ xs) i = omega arith

-- A row that neither the claim nor the mark changes.
kept_row :
    {P : Type 0} (chosen : List ℕ) (t : Timestamp) (ids : List EventId) (now : ℕ)
    (locked : ℕ → Bool) (rows : List (Event P)) (after : Db P) (e : Event P)
    → IsMarked ids (map (claim chosen t) rows) now locked after
    → claim chosen t e ≡ e
    → set_status (map as_uuid ids) sent e ≡ e
    → Memᴰ e rows
    → Memᴰ e after.rows
kept_row chosen t ids now locked rows after e m same same' i =
    let mark = set_status (map as_uuid ids) sent in
    subst (λ l. Memᴰ e l) (sym m.marked_rows)
      (subst (λ x. Memᴰ x (map mark (map (claim chosen t) rows))) (ap mark same ∙ same')
        (In-map mark (claim chosen t e) (map (claim chosen t) rows)
          (In-map (claim chosen t) e rows i)))

module _ {P : Type 0} (config : OutboxConfig P) (limit : ℕ) (db : Db P) where
  -- The claimed form of a selected row is returned.
  pub claimed_hit :
      (e : Event P)
      → Memᴰ e db.rows
      → contains (selected limit db) (uuid_of e) ≡ true
      → Memᴰ
          (record e { status = processing; locked_until = until config limit db })
          (hits (selected limit db) (claimed_rows config limit db))
  claimed_hit e i h =
      let ids = selected limit db in
      subst (λ (x : Event P). Memᴰ x (hits ids (claimed_rows config limit db))) (rw h refl)
        (In-keep (λ (x : Event P). contains ids (uuid_of x)) (claim ids (until config limit db) e)
          (claimed_rows config limit db) (In-map (claim ids (until config limit db)) e db.rows i)
          (rw h h))

  -- A row that is `Sent` is not selected.
  sent-unselected :
      (e : Event P)
      → Keyed db.rows
      → Memᴰ e db.rows
      → e.status ≡ sent
      → contains (selected limit db) (uuid_of e) ≡ false
  sent-unselected e keyed i h = elim (Bool-cases (contains (selected limit db) (uuid_of e))) [
    | inl t ↦
        let (a, j, q, (can, _)) = selected-Claimable limit db (uuid_of e) t in
        let one : a ≡ e = Keyed-unique db.rows a e keyed j i q in
        absurd (ground (arith, rw one at can, h))
    | inr n ↦ n
  ]

  -- With room for one row, a row that may be claimed makes a fetch return some.
  pub claimed-some :
      (e : Event P)
      → 1 ≤ limit
      → Memᴰ e db.rows
      → Claimable db e
      → 1 ≤ length (hits (selected limit db) (claimed_rows config limit db))
  claimed-some e room i c =
      let (f, j, h) = selected_some limit db e room (Claimable-candidates db e i c) in
      length_some _ _ (claimed_hit f j h)

-- The event has reached the broker, and its row is `Sent`.
abbrev pub Cleared : {P X : Type 0} → (X → Event P → Type 0) → Event P → Db P × X → Type 0
Cleared took e w =
    (t : Timestamp) × took w.1 (record e { status = processing; locked_until = t })
    × Memᴰ (record e { status = sent; locked_until = t }) w.0.rows

abbrev pub Waiting : {P X : Type 0} → Event P → Db P × X → Type 0
Waiting e w = Memᴰ e w.0.rows × Claimable w.0 e

-- The broker takes the event, whenever it is claimed.
abbrev pub IsAwaited : {P X : Type 0} → Transport P X → Event P → Type 0
IsAwaited transport e =
    (t : Timestamp) → IsWelcome transport (record e { status = processing; locked_until = t })

module _ {P X : Type 0} (s : Site P X) (rx : Shutdown (Db P × X)) (took : X → Event P → Type 0)
    (c : IsTopic took s.transport s.heap s.metrics) (smooth : IsSmooth s.transport s.heap) where
  abbrev limit : ℕ
  limit = s.config.batch_size

  pub Cleared-kept :
      (e : Event P) (w : Db P × X)
      → w.0.faults ≡ []
      → Keyed w.0.rows
      → Cleared took e w
      → Cleared took e (site_batch s w).1
  Cleared-kept e w calm keyed (t, taken, i) =
      let row = record e { status = sent; locked_until = t } in
      let (_, ids, marked, (_, grows, _, _)) = site_batch-Published s rx took c smooth w calm in
      let same =
        unclaimed (selected limit w.0) (until s.config limit w.0) row
          (sent-unselected s.config limit w.0 row keyed i refl) in
      (
        t,
        grows _ taken,
        kept_row _ _ ids _ _ w.0.rows _ row marked same (still_sent (map as_uuid ids) row refl) i,
      )

  -- A batch delivers a waiting event or leaves it waiting.
  pub Waiting-moves :
      (e : Event P) (w : Db P × X)
      → w.0.faults ≡ []
      → IsAwaited s.transport e
      → Waiting e w
      → Cleared took e (site_batch s w).1 ⊎ Waiting e (site_batch s w).1
  Waiting-moves e w calm awaited (i, can) =
      let (_, ids, marked, (_, grows, only, all)) =
        site_batch-Published s rx took c smooth w calm in
      elim (Bool-cases (contains (selected limit w.0) (uuid_of e))) [
        | inl t ↦
            let got = claimed_hit s.config limit w.0 e i t in
            let (taken, held) = all _ got (awaited (until s.config limit w.0)) in
            inl (
              until s.config limit w.0,
              taken,
              marked_row s ids _ _ _ _ _ marked (In_of_keep _ _ _ got).0 held,
            )
        | inr n ↦
            let absent : contains (map as_uuid ids) (uuid_of e) ≡ false =
              elim (Bool-cases (contains (map as_uuid ids) (uuid_of e))) [
                | inl t ↦ absurd (
                    ground (
                      arith,
                      only (uuid_of e) t,
                      contains-hits uuid_of (selected limit w.0) (uuid_of e)
                          (claimed_rows s.config limit w.0) n,
                    ))
                | inr f ↦ f
              ] in
            inr (
              kept_row _ _ ids _ _ w.0.rows _ e marked
                  (unclaimed (selected limit w.0) (until s.config limit w.0) e n)
                  (unmarked (map as_uuid ids) e absent) i,
              rw (marked.same_now, marked.same_locked) can,
            )
      ]
