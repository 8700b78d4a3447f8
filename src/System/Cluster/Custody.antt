-- ===== src/System/Cluster/Custody.antt =====
-- No event is lost, in any interleaving of the tasks.
use oxide_outbox.Prelude.{
  ℕ, String, true, ◌≡◌, ◌≢◌, refl, sym, ◌∙◌, ap, inl, inr, Option, List, ◌∷◌, map, contains, ◌==◌,
  Bool-cases, contains_of_In,
}
use mathlib.Core.List.Memᴰ.{head, tail}
use oxide_outbox.Exec.{ok, Exec}
use oxide_outbox.Model.{Event, sent}
use oxide_outbox.Processor.Steps.{Phase, ready}
use oxide_outbox.Postgres.Sql.{uuid_of}
use oxide_outbox.Postgres.Custody.{Honest, Held}
use oxide_outbox.Postgres.Custody.Calls.{delete-InCustody, quarantine-InCustody}
use oxide_outbox.Service.AddEvent.{Fresh}
use oxide_outbox.System.Cluster.{
  Site, Cluster, IsLedger, Grows, Collected, set_phase, site_add_event, Step, works, restarts,
  produces, collects, quarantines, elsewhere, Reach, here, next, left_by,
}
use oxide_outbox.System.Cluster.Advance.{InCustody-mono, Collected-mono, advance-IsAdvanced}
use oxide_outbox.System.Cluster.Produce.{add_event-Keeper, add_event-leaves}

-- Every row marked `Sent`, and all that a worker has collected, was taken by the broker.
pub record IsHonest {P X : Type 0} (delivered : X → ℕ → Type 0) (c : Cluster P X) : Type 0 where
  pub rows : Honest (delivered c.rest) c.db.rows
  pub collected : (i : ℕ) → Collected (delivered c.rest) (c.phase i)

-- An event stands in the outbox table or among the dead letters, or the broker has taken it.
abbrev pub IsSafe : {P X : Type 0} → (X → ℕ → Type 0) → ℕ → Cluster P X → Type 0
IsSafe delivered k c = Held (delivered c.rest) k c.db

set_phase-Collected :
    {P : Type 0} (D : ℕ → Type 0) (phase : ℕ → Phase P) (i : ℕ) (c : Phase P)
    → Collected D c
    → ((j : ℕ) → Collected D (phase j))
    → (j : ℕ) → Collected D (set_phase phase i c j)
set_phase-Collected D phase i c h others j = elim (Bool-cases (i == j)) [
  | inl t ↦ rw t h
  | inr n ↦ rw n (others j)
]

Honest-fresh :
    {P : Type 0} (D : ℕ → Type 0) (e : Event P) (rows : List (Event P))
    → e.status ≢ sent
    → Honest D rows
    → Honest D (e ∷ rows)
Honest-fresh {P = P} D e rows fresh h a (head q) t =
    absurd (fresh (sym (ap (λ (x : Event P). x.status) q) ∙ t))
Honest-fresh D e rows fresh h a (tail i) t = h a i t

module _ {P X : Type 0} (s : Site P X) (delivered : X → ℕ → Type 0) (l : IsLedger s delivered) where
  Step-keeps :
      {c c' : Cluster P X} (k : ℕ)
      → Step s delivered c c'
      → IsHonest delivered c
      → IsSafe delivered k c
      → IsHonest delivered c' × IsSafe delivered k c'
  Step-keeps k (works i c) h safe =
      let (custody, collected, grows) =
        advance-IsAdvanced s delivered l k (c.phase i) (c.db, c.rest) (h.rows, safe)
          (h.collected i) in
      (
        record {
          rows = custody.0;
          collected =
              set_phase-Collected _ c.phase i _ collected
                (λ j. Collected-mono _ _ grows (c.phase j) (h.collected j));
        },
        custody.1,
      )
  Step-keeps k (restarts i c) h safe = (
    record { rows = h.rows; collected = set_phase-Collected _ c.phase i ready tt h.collected },
    safe,
  )
  Step-keeps k (produces event_type payload given get_event c grows) h safe =
      let (custody, more) =
        add_event-Keeper s delivered l k event_type payload given get_event grows (c.db, c.rest) in
      let after = custody (h.rows, safe) in
      (
        record {
          rows = after.0;
          collected = λ j. Collected-mono _ _ more (c.phase j) (h.collected j);
        },
        after.1,
      )
  Step-keeps k (collects c) h safe =
      let custody = delete-InCustody (delivered c.rest) k s.config c.db (h.rows, safe) in
      (record { rows = custody.0; collected = h.collected }, custody.1)
  Step-keeps k (quarantines fs c) h safe =
      let custody = quarantine-InCustody (delivered c.rest) k fs c.db (h.rows, safe) in
      (record { rows = custody.0; collected = h.collected }, custody.1)
  Step-keeps k (elsewhere c db' rest' rows dead grows) h safe =
      let custody = InCustody-mono _ _ grows k c.db (h.rows, safe) in
      (
        record {
          rows = rw rows custody.0;
          collected = λ j. Collected-mono _ _ grows (c.phase j) (h.collected j);
        },
        rw (rows, dead) custody.1,
      )

  Reach-keeps :
      {start c : Cluster P X} (k : ℕ)
      → Reach s delivered start c
      → IsHonest delivered start
      → IsSafe delivered k start
      → IsHonest delivered c × IsSafe delivered k c
  Reach-keeps k here h safe = (h, safe)
  Reach-keeps k (next r step) h safe =
      let (honest, kept) = Reach-keeps k r h safe in Step-keeps k step honest kept

  -- A row marked `Sent` was taken by the broker, and an event that is safe stays safe: in every
  -- cluster that the calls of producers, workers, the collector and the dead-letter task lead to,
  -- in any order, with workers killed between any two calls, if both held in the first. A `publish`
  -- that returns `Ok` was taken by the broker, and no call undoes that.
  pub Reach-IsSafe :
      (k : ℕ) (start c : Cluster P X)
      → IsHonest delivered start
      → IsSafe delivered k start
      → Reach s delivered start c
      → IsHonest delivered c × IsSafe delivered k c
  Reach-IsSafe k start c h safe r = Reach-keeps k r h safe

  -- The row that an `add_event` which returned `Ok` has put in front of the table, a pending event
  -- with the type and the payload that were given, is never lost: in whatever the tasks do after it,
  -- it stands in the outbox table or among the dead letters, or the broker has taken it, if before
  -- the call every row marked `Sent`, and all that a worker had collected, had been taken. A
  -- `publish` that returns `Ok` was taken by the broker, and no call undoes that.
  pub add_event-survives :
      (event_type : String) (payload : P) (given : Option String)
      (get_event : Exec X (Option (Event P)))
      → Grows delivered get_event
      → (c : Cluster P X) → IsHonest delivered c
      → let done = site_add_event s event_type payload given get_event (c.db, c.rest) in
        done.0 ≡ ok tt
        → (e : Event P) × Fresh event_type payload e
          × (done.1.0.rows ≡ e ∷ c.db.rows)
          × ((later : Cluster P X)
              → Reach s delivered
                  (left_by (site_add_event s event_type payload given get_event) c)
                  later
              → IsSafe delivered (uuid_of e) later)
  add_event-survives event_type payload given get_event grows c h q =
      let (e, fresh, _, rows) =
        add_event-leaves s event_type payload given get_event (c.db, c.rest) q in
      let (custody, more) =
        add_event-Keeper s delivered l (uuid_of e) event_type payload given get_event grows
          (c.db, c.rest) in
      let done = site_add_event s event_type payload given get_event (c.db, c.rest) in
      let honest : Honest (delivered done.1.1) done.1.0.rows = rw rows (
        Honest-fresh (delivered done.1.1) e c.db.rows (λ t. cc)
          (λ a i t. more (uuid_of a) (h.rows a i t))) in
      let row : contains (map uuid_of done.1.0.rows) (uuid_of e) ≡ true =
        rw rows (contains_of_In uuid_of e (e ∷ c.db.rows) (head refl)) in
      (
        e,
        fresh,
        rows,
        λ later r.
            (Reach-keeps (uuid_of e) r
              (record {
                rows = honest;
                collected = λ j. Collected-mono _ _ more (c.phase j) (h.collected j);
              })
              (inl row)).1,
      )
