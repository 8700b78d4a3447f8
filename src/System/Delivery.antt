-- ===== src/System/Delivery.antt =====
-- From an accepted `add_event` of service.rs to the broker, by way of outbox-postgres/src/lib.rs and
-- a batch of processor.rs.
pub mod Accepted
pub mod Rows
pub mod Backlog
pub mod Recovery
pub mod Kept
pub mod Running
pub mod Table
use oxide_outbox.Prelude.{
  ℕ, true, ◌≡◌, refl, ◌∙◌, ap, inl, inr, Option, none, some, List, [], ◌∷◌, map, Memᴰ, length,
  contains, arith,
}
use oxide_outbox.Exec.{ok, Exec}
use oxide_outbox.Object.EventId.{EventId}
use oxide_outbox.Object.EventType
use oxide_outbox.Model.{Event}
use oxide_outbox.Runtime.{Shutdown}
use oxide_outbox.Traits.{DlqHeap}
use oxide_outbox.Processor.{
  note_success, note_failure, mark, publish_all, event_publish, process_pending_events,
}
use oxide_outbox.Processor.Delivered.{IsTopic, IsSmooth, IsWelcome, Has, publish_all-Arrived}
use oxide_outbox.Postgres.Sql.{Db, uuid_of}
use oxide_outbox.Postgres.{update_status, fetch_rows, fetch_next_to_process, selected}
use oxide_outbox.Postgres.Fetch.{hits}
use oxide_outbox.Postgres.Fetch.Claims.{claimed_rows}
use oxide_outbox.System.{heaped, measured, carried}
use oxide_outbox.System.Batch.{sending, sending-db, IsMarked, worker_batch}
use oxide_outbox.System.Cluster.{Site, site_processor}
use oxide_outbox.System.Cluster.Advance.{
  note_success-rest, note_failure-rest, success_metrics-rest, error_metrics-rest,
}

module _ {P X : Type 0} (s : Site P X) where
  abbrev pub site_batch : Exec (Db P × X) ℕ
  site_batch = process_pending_events (heaped s.heap) (measured s.metrics) (site_processor s)

  pub fetch_now :
      (limit : ℕ) (db : Db P)
      → db.faults ≡ []
      → ((fetch_next_to_process s.config limit db).0
          ≡ ok (hits (selected limit db) (claimed_rows s.config limit db)))
        × ((fetch_next_to_process s.config limit db).1.faults ≡ [])
  unfolding fetch_next_to_process fetch_rows
  fetch_now limit db h = rw h (refl, refl)

  mark_now :
      (ids : List EventId) (w : Db P × X)
      → w.0.faults ≡ []
      → let done = mark (site_processor s) ids w in
        (done.0 ≡ ok tt) × (done.1.1 ≡ w.1) × (done.1.0.faults ≡ [])
  unfolding mark update_status
  mark_now [] w h = (refl, refl, h)
  mark_now (id ∷ ids) w h = rw h (refl, refl, refl)

  module _ (took : X → Event P → Type 0) (c : IsTopic took s.transport s.heap s.metrics) where
    pub lifted-IsTopic :
        IsTopic
          (λ (w : Db P × X). took w.1)
          (carried s.transport)
          (heaped s.heap)
          (measured s.metrics)
    lifted-IsTopic = record {
      accepts = λ e w. c.accepts e w.1;
      by_publish = λ e f w. c.by_publish e f w.1;
      by_success = λ id f w t. rw (note_success-rest s.heap id w) (c.by_success id f w.1 t);
      by_failure = λ id f w t. rw (note_failure-rest s.heap id w) (c.by_failure id f w.1 t);
      by_success_metrics =
          λ ty f w t. rw (success_metrics-rest s.metrics ty w) (c.by_success_metrics ty f w.1 t);
      by_error_metrics =
          λ ty f w t. rw (error_metrics-rest s.metrics ty w) (c.by_error_metrics ty f w.1 t);
    }

  module _ (rx : Shutdown (Db P × X)) (took : X → Event P → Type 0)
      (c : IsTopic took s.transport s.heap s.metrics) (smooth : IsSmooth s.transport s.heap) where
    heaped-success :
        (heap : Option (DlqHeap X)) (id : EventId) (w : Db P × X)
        → (note_success (heaped heap) id w).0 ≡ (note_success heap id w.1).0
    heaped-success none id w = refl
    heaped-success (some h) id w = refl

    heaped-failure :
        (heap : Option (DlqHeap X)) (id : EventId) (w : Db P × X)
        → (note_failure (heaped heap) id w).0 ≡ (note_failure heap id w.1).0
    heaped-failure none id w = refl
    heaped-failure (some h) id w = refl

    lifted-IsSmooth : IsSmooth {W = Db P × X} (carried s.transport) (heaped s.heap)
    lifted-IsSmooth = record {
      publishes = λ e w. smooth.publishes e w.1;
      successes = λ id w. heaped-success s.heap id w ∙ smooth.successes id w.1;
      failures = λ id w. heaped-failure s.heap id w ∙ smooth.failures id w.1;
    }

    -- What a batch of `es` leaves, without faults: it collects identifiers of these events only, and
    -- those of all that the broker takes.
    abbrev pub Published : List (Event P) → Db P × X → List EventId → Db P × X → Type 0
    Published es w ids after =
        (after.0.faults ≡ [])
        × ((f : Event P) → took w.1 f → took after.1 f)
        × ((k : ℕ) → Has ids k → contains (map uuid_of es) k ≡ true)
        × ((f : Event P)
            → Memᴰ f es
            → IsWelcome s.transport f
            → took after.1 f × Has ids (uuid_of f))

    -- A batch of the events `es`, from the world that the fetch left.
    event_publish-Published :
        (es : List (Event P)) (w : Db P × X)
        → w.0.faults ≡ []
        → let done = event_publish (heaped s.heap) (measured s.metrics) (site_processor s) es w in
          (done.0 ≡ ok tt)
          × (ids : List EventId) × ((sending s.config s.transport s.heap s.metrics rx es w).0
              ≡ ok ids)
          × Published es w ids done.1
    unfolding event_publish
    event_publish-Published es w h =
        let looped = sending s.config s.transport s.heap s.metrics rx es w in
        let (ids, (q, _, grows), all, only) =
          publish_all-Arrived (λ (v : Db P × X). took v.1) (heaped s.heap) (measured s.metrics)
            (site_processor s) (lifted-IsTopic took c) lifted-IsSmooth es [] w in
        let same : looped.1.0 ≡ w.0 = sending-db s.config s.transport s.heap s.metrics rx es w in
        let (marked, left, calm) = mark_now ids looped.1 (ap (λ (d : Db P). d.faults) same ∙ h) in
        rw q (
          marked,
          ids,
          refl,
          (
            calm,
            (λ f t. rw left (grows f t)),
            (λ k i. elim (only k i) [ inl none_yet ↦ cc | inr mine ↦ mine ]),
            (λ f i welcome. let (t, held) = all f i (λ v. welcome v.1) in (rw left t, held)),
          ),
        )

    -- A batch without faults.
    batch-Published :
        (w : Db P × X) (es : List (Event P))
        → let fetched = fetch_next_to_process s.config s.config.batch_size w.0 in
          fetched.0 ≡ ok es
          → fetched.1.faults ≡ []
          → ((site_batch w).0 ≡ ok (length es))
            × (ids : List EventId) × ((sending s.config s.transport s.heap s.metrics rx es
                  (fetched.1, w.1)).0
                ≡ ok ids)
            × Published es w ids (site_batch w).1
    unfolding process_pending_events publish_all
    batch-Published w [] q calm =
        rw q (refl, [], refl, (calm, (λ f t. t), (λ k i. i), (λ f i. elim i [ ])))
    batch-Published w (e ∷ es) q calm =
        let (done, ids, sent_ids, left) =
          event_publish-Published (e ∷ es)
            ((fetch_next_to_process s.config s.config.batch_size w.0).1, w.1) calm in
        rw q (rw done (refl, ids, sent_ids, left))

    -- The rows that a fetch claims and returns.
    abbrev pub claimed : Db P → List (Event P)
    claimed db =
        hits (selected s.config.batch_size db) (claimed_rows s.config s.config.batch_size db)

    -- A batch without faults, with what its loop collected and the table that it leaves.
    pub site_batch-Collected :
        (w : Db P × X)
        → w.0.faults ≡ []
        → ((site_batch w).0 ≡ ok (length (claimed w.0)))
          × (ids : List EventId) × IsMarked ids
              (claimed_rows s.config s.config.batch_size w.0)
              w.0.now
              w.0.row_locked
              (site_batch w).1.0
          × Published (claimed w.0) w ids (site_batch w).1
          × ((sending s.config s.transport s.heap s.metrics rx
                (claimed w.0)
                ((fetch_next_to_process s.config s.config.batch_size w.0).1, w.1)).0
              ≡ ok ids)
    site_batch-Collected w h =
        let (q, calm) = fetch_now s.config.batch_size w.0 h in
        let (done, ids, sent_ids, left) = batch-Published w (claimed w.0) q calm in
        let (es', q', _, ids', sent_ids', marked) =
          worker_batch s.config s.transport s.heap s.metrics rx w.0 w.1 _ done in
        let same_es : es' ≡ claimed w.0 = ground (arith, q, q') in
        let same_ids : ids' ≡ ids = ground (arith, sent_ids, rw same_es at sent_ids') in
        (done, ids, rw same_ids at marked, left, sent_ids)

    pub site_batch-Published :
        (w : Db P × X)
        → w.0.faults ≡ []
        → ((site_batch w).0 ≡ ok (length (claimed w.0)))
          × (ids : List EventId) × IsMarked ids
              (claimed_rows s.config s.config.batch_size w.0)
              w.0.now
              w.0.row_locked
              (site_batch w).1.0
          × Published (claimed w.0) w ids (site_batch w).1
    site_batch-Published w h =
        let (done, ids, marked, left, _) = site_batch-Collected w h in (done, ids, marked, left)
