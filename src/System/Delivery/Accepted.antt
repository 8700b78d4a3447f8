-- ===== src/System/Delivery/Accepted.antt =====
-- An event that `add_event` of service.rs has accepted, in the next batch of a worker.
use oxide_outbox.Prelude.{
  ℕ, ◌≤◌, String, Bool, false, ◌≡◌, refl, sym, subst, Option, List, [], map, Memᴰ, length, In-map,
  In_of_keep,
}
use mathlib.Core.List.Memᴰ.{head}
use oxide_outbox.Exec.{ok, Exec}
use oxide_outbox.Object.EventId.{EventId, as_uuid}
use oxide_outbox.Object.EventType
use oxide_outbox.Model.{Event, processing, sent}
use oxide_outbox.Runtime.{Shutdown}
use oxide_outbox.Processor.Delivered.{IsTopic, IsSmooth, IsWelcome, Has}
use oxide_outbox.Service.AddEvent.{Fresh, TokenOf}
use oxide_outbox.Postgres.Sql.{Db, uuid_of}
use oxide_outbox.Postgres.{candidates, set_status}
use oxide_outbox.Postgres.Fetch.Claims.{until, fetch_all}
use oxide_outbox.Postgres.Fetch.Selection.{Claimable}
use oxide_outbox.System.Batch.{IsMarked}
use oxide_outbox.System.Delivery.{site_batch, fetch_now, site_batch-Published}
use oxide_outbox.System.Cluster.{Site, site_add_event}
use oxide_outbox.System.Cluster.Produce.{add_event-leaves}

module _ {P X : Type 0} (s : Site P X) where
  -- The row as the batch leaves it.
  abbrev pub delivered_row : Db P → Event P → Event P
  delivered_row db e = record e {
    status = sent;
    locked_until = until s.config s.config.batch_size db;
  }

  -- The row as the broker sees it.
  abbrev pub published_row : Db P → Event P → Event P
  published_row db e = record e {
    status = processing;
    locked_until = until s.config s.config.batch_size db;
  }

  pub marked_row :
      (ids : List EventId) (before : List (Event P)) (now : ℕ) (locked : ℕ → Bool) (after : Db P)
      (e : Event P)
      → IsMarked ids before now locked after
      → Memᴰ e before
      → Has ids (uuid_of e)
      → Memᴰ (record e { status = sent }) after.rows
  marked_row ids before now locked after e m i h =
      subst (λ l. Memᴰ (record e { status = sent }) l) (sym m.marked_rows)
        (subst (λ x. Memᴰ x (map (set_status (map as_uuid ids) sent) before)) (rw h refl)
          (In-map (set_status (map as_uuid ids) sent) e before i))

  module _ (rx : Shutdown (Db P × X)) (took : X → Event P → Type 0)
      (c : IsTopic took s.transport s.heap s.metrics) (smooth : IsSmooth s.transport s.heap) where
    -- Where there is room for every claimable row and no fault in the way, a batch delivers each of
    -- those that the broker takes.
    batch_delivers :
        (w : Db P × X) (e : Event P)
        → w.0.faults ≡ []
        → length (candidates w.0) ≤ s.config.batch_size
        → Memᴰ e w.0.rows
        → Claimable w.0 e
        → IsWelcome s.transport (published_row w.0 e)
        → (n : ℕ) × ((site_batch s w).0 ≡ ok n)
          × took (site_batch s w).1.1 (published_row w.0 e)
          × Memᴰ (delivered_row w.0 e) (site_batch s w).1.0.rows
    batch_delivers w e calm room i claimable welcome =
        let (done, ids, marked, (_, _, _, all)) = site_batch-Published s rx took c smooth w calm in
        let (q, _) = fetch_now s s.config.batch_size w.0 calm in
        let got = fetch_all s.config s.config.batch_size w.0 _ q room e i claimable in
        let (taken, held) = all (published_row w.0 e) got welcome in
        (
          _,
          done,
          taken,
          marked_row ids _ _ _ _ (published_row w.0 e) marked (In_of_keep _ _ _ got).0 held,
        )

    -- From the producer to the broker: when an `add_event` has returned `Ok`, a worker's batch on
    -- the rows that it left, at whatever time, returns `Ok`, the broker has taken an event with the
    -- type and the payload that were given and the token of the strategy, in processing and locked
    -- from now, and the row of that event is `Sent`, and otherwise as it was published. The batch has
    -- room for every row that can be claimed, no statement of it fails, no other transaction holds a
    -- row, the heap answers, and the broker takes every event of that type; it may refuse others,
    -- and it does not panic.
    pub add_event-delivers :
        (event_type : String) (payload : P) (given : Option String)
        (get_event : Exec X (Option (Event P))) (w v : Db P × X)
        → let made = site_add_event s event_type payload given get_event w in
          made.0 ≡ ok tt
          → v.0.rows ≡ made.1.0.rows
          → v.0.faults ≡ []
          → ((k : ℕ) → v.0.row_locked k ≡ false)
          → length (candidates v.0) ≤ s.config.batch_size
          → ((e : Event P) → e.event_type ≡ EventType.new event_type → IsWelcome s.transport e)
          → (n : ℕ) × ((site_batch s v).0 ≡ ok n)
            × (e : Event P) × Fresh event_type payload e
            × TokenOf s.config.idempotency_strategy given e.idempotency_token
            × took (site_batch s v).1.1 (published_row v.0 e)
            × Memᴰ (delivered_row v.0 e) (site_batch s v).1.0.rows
    add_event-delivers event_type payload given get_event w v h rows calm free room welcome =
        let (e, fresh, token, left) = add_event-leaves s event_type payload given get_event w h in
        let (status, _, event_type_of, _) = fresh in
        let (n, done, taken, row) =
          batch_delivers v e calm room (rw (rows, left) (head refl))
            (rw status refl, free (uuid_of e)) (welcome (published_row v.0 e) event_type_of) in
        (n, done, e, fresh, token, taken, row)
