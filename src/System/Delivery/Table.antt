-- ===== src/System/Delivery/Table.antt =====
-- What a batch of processor.rs on the storage of outbox-postgres/src/lib.rs makes of the table, row by
-- row.
use mathlib.Core.List.Memᴰ.{head, tail}
use oxide_outbox.Prelude.{
  ℕ, suc, ◌≤◌, ◌<◌, true, false, ◌≡◌, refl, subst, ◌⊎◌, inl, inr, List, [], ◌∷◌, map, Memᴰ, length,
  contains, leb, arith, Bool-cases, In_of_keep, contains-hits,
}
use oxide_outbox.Prelude.Int.{later}
use oxide_outbox.Exec.{ok}
use oxide_outbox.Exec.Laws.{bind_post}
use oxide_outbox.Object.EventId.{EventId, as_uuid}
use oxide_outbox.Runtime.{Shutdown, Timestamp}
use oxide_outbox.Model.{Event, processing, sent}
use oxide_outbox.Processor.{mark, publish_all, event_publish, process_pending_events}
use oxide_outbox.Processor.Delivered.{IsTopic, IsSmooth, IsWelcome, Has}
use oxide_outbox.Processor.Collected.{publish_all-Soundly}
use oxide_outbox.Postgres.Sql.{Db, uuid_of}
use oxide_outbox.Postgres.{minute, candidates, selected, claim, set_status, fetch_next_to_process}
use oxide_outbox.Postgres.Fetch.{Keyed, Keyed-unique, hits}
use oxide_outbox.Postgres.Fetch.Claims.{claimed_rows, Keyed-claim, fetch-ClaimOf}
use oxide_outbox.Postgres.Fetch.Selection.{
  Claimable, Claimable-candidates, selected-Claimable, selected-all,
}
use oxide_outbox.System.{heaped, measured}
use oxide_outbox.System.Batch.{sending}
use oxide_outbox.System.Cluster.{Site, site_processor}
use oxide_outbox.System.Delivery.{
  site_batch, claimed, Published, fetch_now, site_batch-Collected, lifted-IsTopic,
}
use oxide_outbox.System.Delivery.Rows.{claimed_hit}

-- A table before and behind a batch, row by row in the same order, and the number of events that the
-- batch processed. A row is as it was, and it was not free or the batch was full; or it was free
-- and is in processing with a new lock, and the broker does not take it whenever it is asked; or it
-- was free, the broker has taken it as it was claimed, and it is `Sent`, with the new lock.
pub data Batched {P : Type 0} (full : Type 0) (free welcome took : Event P → Type 0)
    (until : Timestamp) : ℕ → List (Event P) → List (Event P) → Type 0 where
  none_left : Batched full free welcome took until 0 [] []
  kept :
      (e : Event P) {n : ℕ} {es es' : List (Event P)}
      → (¬ free e) ⊎ full
      → Batched full free welcome took until n es es'
      → Batched full free welcome took until n (e ∷ es) (e ∷ es')
  waiting :
      (e : Event P) {n : ℕ} {es es' : List (Event P)}
      → free e
      → ¬ welcome (record e { status = processing; locked_until = until })
      → Batched full free welcome took until n es es'
      → Batched full free welcome took until
          (suc n)
          (e ∷ es)
          (record e { status = processing; locked_until = until } ∷ es')
  delivered :
      (e : Event P) {n : ℕ} {es es' : List (Event P)}
      → free e
      → took (record e { status = processing; locked_until = until })
      → Batched full free welcome took until n es es'
      → Batched full free welcome took until
          (suc n)
          (e ∷ es)
          (record e { status = sent; locked_until = until } ∷ es')

module _ {P : Type 0} (full : Type 0) (free welcome took : Event P → Type 0) (until : Timestamp)
    (chosen marked : List ℕ) where
  -- What is known of each row.
  record Settled (e : Event P) : Type 0 where
    can : contains chosen (uuid_of e) ≡ true → free e
    left_out : contains chosen (uuid_of e) ≡ false → (¬ free e) ⊎ full
    among : contains chosen (uuid_of e) ≡ false → contains marked (uuid_of e) ≡ false
    refused :
        contains chosen (uuid_of e) ≡ true
        → contains marked (uuid_of e) ≡ false
        → ¬ welcome (record e { status = processing; locked_until = until })
    accepted :
        contains chosen (uuid_of e) ≡ true
        → contains marked (uuid_of e) ≡ true
        → took (record e { status = processing; locked_until = until })

  rows-Batched :
      (es : List (Event P))
      → ((e : Event P) → Memᴰ e es → Settled e)
      → Batched full free welcome took until
          (length (hits chosen (map (claim chosen until) es)))
          es
          (map (set_status marked sent) (map (claim chosen until) es))
  rows-Batched [] h = none_left
  rows-Batched (e ∷ es) h =
      let rest = rows-Batched es (λ x i. h x (tail i)) in
      let this = h e (head refl) in
      elim (Bool-cases (contains chosen (uuid_of e))) [
        | inl t ↦ elim (Bool-cases (contains marked (uuid_of e))) [
          | inl m ↦ rw t (rw (t, m) (delivered e (this.can t) (this.accepted t m) rest))
          | inr n ↦ rw t (rw (t, n) (waiting e (this.can t) (this.refused t n) rest))
        ]
        | inr f ↦ rw f (rw (f, this.among f) (kept e (this.left_out f) rest))
      ]

module _ {P X : Type 0} (s : Site P X) where
  mark-rest : (ids : List EventId) (w : Db P × X) → (mark (site_processor s) ids w).1.1 ≡ w.1
  unfolding mark
  mark-rest [] w = refl
  mark-rest (id ∷ ids) w = refl

  module _ (rx : Shutdown (Db P × X)) (took : X → Event P → Type 0)
      (c : IsTopic took s.transport s.heap s.metrics) (smooth : IsSmooth s.transport s.heap) where
    -- The loop of a batch, in the world that a fetch leaves.
    abbrev looped : Db P × X → List (Event P) → X
    looped w es =
        (sending s.config s.transport s.heap s.metrics rx es
          ((fetch_next_to_process s.config s.config.batch_size w.0).1, w.1)).1.1

    event_publish-rest :
        (es : List (Event P)) (w : Db P × X)
        → (event_publish (heaped s.heap) (measured s.metrics) (site_processor s) es w).1.1
          ≡ (sending s.config s.transport s.heap s.metrics rx es w).1.1
    unfolding event_publish
    event_publish-rest es w =
        bind_post
          (λ _ (v : Db P × X). v.1 ≡ (sending s.config s.transport s.heap s.metrics rx es w).1.1)
          (sending s.config s.transport s.heap s.metrics rx es) (mark (site_processor s)) w
          (λ ids q. mark-rest ids _) (λ x q. refl) (λ m q. refl)

    -- Behind a batch the rest of the world is as its loop left it.
    batch-rest :
        (w : Db P × X) (es : List (Event P))
        → (fetch_next_to_process s.config s.config.batch_size w.0).0 ≡ ok es
        → (site_batch s w).1.1 ≡ looped w es
    unfolding process_pending_events publish_all
    batch-rest w [] q = rw q refl
    batch-rest w (e ∷ es) q =
        let w1 : Db P × X = ((fetch_next_to_process s.config s.config.batch_size w.0).1, w.1) in
        rw q (
          bind_post (λ _ (v : Db P × X). v.1 ≡ looped w (e ∷ es))
            (event_publish (heaped s.heap) (measured s.metrics) (site_processor s) (e ∷ es)) _ w1
            (λ u t. event_publish-rest (e ∷ es) w1) (λ x t. event_publish-rest (e ∷ es) w1)
            (λ m t. event_publish-rest (e ∷ es) w1))

    -- The claimed events that the loop collected, the broker took.
    collected_taken :
        (w : Db P × X) (ids : List EventId)
        → w.0.faults ≡ []
        → Keyed w.0.rows
        → (sending s.config s.transport s.heap s.metrics rx
            (claimed s rx took c smooth w.0)
            ((fetch_next_to_process s.config s.config.batch_size w.0).1, w.1)).0
          ≡ ok ids
        → (f : Event P) → Memᴰ f (claimed s rx took c smooth w.0)
        → Has ids (uuid_of f)
        → took (site_batch s w).1.1 f
    collected_taken w ids calm keyed q =
        let all = claimed s rx took c smooth w.0 in
        let rows = claimed_rows s.config s.config.batch_size w.0 in
        let unique = Keyed-claim (selected s.config.batch_size w.0) _ w.0.rows keyed in
        let w1 : Db P × X = ((fetch_next_to_process s.config s.config.batch_size w.0).1, w.1) in
        let sound =
          publish_all-Soundly (λ (v : Db P × X). took v.1) (heaped s.heap) (measured s.metrics)
            (site_processor s) (lifted-IsTopic s took c) all
            (λ e f i j same.
              Keyed-unique rows f e unique (In_of_keep _ f rows j).0 (In_of_keep _ e rows i).0 same)
            all [] w1 (λ f i. i) (λ f i held. cc) in
        let left : (site_batch s w).1.1 ≡ looped w all =
          batch-rest w all (fetch_now s s.config.batch_size w.0 calm).0 in
        rw left (rw q at sound)

    row-Settled :
        (w : Db P × X)
        → w.0.faults ≡ []
        → Keyed w.0.rows
        → (ids : List EventId)
        → Published s rx took c smooth (claimed s rx took c smooth w.0) w ids (site_batch s w).1
        → ((f : Event P)
            → Memᴰ f (claimed s rx took c smooth w.0)
            → Has ids (uuid_of f)
            → took (site_batch s w).1.1 f)
        → (e : Event P) → Memᴰ e w.0.rows
        → Settled
            (s.config.batch_size < length (candidates w.0))
            (Claimable w.0)
            (IsWelcome s.transport)
            (took (site_batch s w).1.1)
            (later w.0.now minute s.config.lock_timeout_mins)
            (selected s.config.batch_size w.0)
            (map as_uuid ids)
            e
    row-Settled w calm keyed ids (_, _, only, arrives) taken e i =
        let limit = s.config.batch_size in
        record {
          can = λ t.
              let (a, j, q, free) = selected-Claimable limit w.0 (uuid_of e) t in
              subst (Claimable w.0) (Keyed-unique w.0.rows a e keyed j i q) free;
          left_out = λ f. elim (Bool-cases (leb (length (candidates w.0)) limit)) [
            | inl fits ↦ inl (λ free.
                let t =
                  selected-all limit w.0 e (ground arith) (Claimable-candidates w.0 e i free) in
                cc)
            | inr more ↦ inr (ground arith)
          ];
          among = λ f. elim (Bool-cases (contains (map as_uuid ids) (uuid_of e))) [
            | inl m ↦
                let g =
                  contains-hits uuid_of (selected limit w.0) (uuid_of e)
                    (claimed_rows s.config limit w.0) f in
                let t = only (uuid_of e) m in cc
            | inr n ↦ n
          ];
          refused = λ t n welcome.
              let (_, held) = arrives _ (claimed_hit s.config limit w.0 e i t) welcome in cc;
          accepted = λ t m. taken _ (claimed_hit s.config limit w.0 e i t) m;
        }

    -- A batch of the worker makes of each row what its event became: it returns `Ok n`, and the table
    -- has the same rows in the same order, each as it was but for the `n` that the batch claimed, at most
    -- `batch_size` of the rows that were pending, or in processing with a lock that had run out, and
    -- that no other transaction held. Each of these is in processing, locked for `lock_timeout_mins`
    -- from now, and the broker does not take it whenever it is asked; or it is `Sent`, with that lock,
    -- and the broker has taken it, as it was claimed. None is left out unless there were more than
    -- `batch_size`. No statement fails, the heap answers, and the broker may refuse, and does not
    -- panic. The table has a primary key.
    pub site_batch-Batched :
        (w : Db P × X)
        → w.0.faults ≡ []
        → Keyed w.0.rows
        → let done = site_batch s w in
          (n : ℕ) × (done.0 ≡ ok n)
          × (n ≤ s.config.batch_size)
          × Batched
              (s.config.batch_size < length (candidates w.0))
              (Claimable w.0)
              (IsWelcome s.transport)
              (took done.1.1)
              (later w.0.now minute s.config.lock_timeout_mins)
              n
              w.0.rows
              done.1.0.rows
    site_batch-Batched w calm keyed =
        let limit = s.config.batch_size in
        let (done, ids, marked, left, q) = site_batch-Collected s rx took c smooth w calm in
        let taken = collected_taken w ids calm keyed q in
        (
          length (claimed s rx took c smooth w.0),
          done,
          (fetch-ClaimOf s.config limit w.0 _ keyed (fetch_now s limit w.0 calm).0).1,
          rw (marked.marked_rows) (
              rows-Batched _ _ _ _ _ (selected limit w.0) (map as_uuid ids) w.0.rows
                (row-Settled w calm keyed ids left taken)),
        )
