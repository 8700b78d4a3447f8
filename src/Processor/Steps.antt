-- ===== src/Processor/Steps.antt =====
-- `process_pending_events` in processor.rs, from one `await` to the next: where a worker stands, with
-- the locals that are live there, and what its next call does.
use oxide_outbox.Prelude.{ℕ, zero, suc, Option, List, [], ◌∷◌, length}
use oxide_outbox.Exec.{Outcome, ok, err, panicked}
use oxide_outbox.Object.EventId.{EventId}
use oxide_outbox.Runtime.{Metrics}
use oxide_outbox.Model.{Event}
use oxide_outbox.Traits.{DlqHeap}
use oxide_outbox.Processor.{OutboxProcessor, settle, mark}

-- `ready`: before the fetch. `sending`: at the head of the loop, with the events still to publish,
-- `success_ids` and `count`. `noting`: behind a `publish` that returned.
pub data Phase (P : Type 0) : Type 0 where
  ready : Phase P
  sending : List (Event P) → List EventId → ℕ → Phase P
  noting : Event P → Outcome (Unit {0}) → List (Event P) → List EventId → ℕ → Phase P
  finished : Outcome ℕ → Phase P

module _ {P : Type 0} where
  abbrev pub after_fetch : Outcome (List (Event P)) → Phase P
  after_fetch (ok []) = finished (ok 0)
  after_fetch (ok (e ∷ es)) = sending (e ∷ es) [] (length (e ∷ es))
  after_fetch (err x) = finished (err x)
  after_fetch (panicked s) = finished (panicked s)

  abbrev pub after_publish :
      Event P → List (Event P) → List EventId → ℕ → Outcome (Unit {0}) → Phase P
  after_publish e es ids count (panicked s) = finished (panicked s)
  after_publish e es ids count (ok u) = noting e (ok u) es ids count
  after_publish e es ids count (err x) = noting e (err x) es ids count

  abbrev pub after_note : List (Event P) → ℕ → Outcome (List EventId) → Phase P
  after_note es count (ok ids) = sending es ids count
  after_note es count (err x) = finished (err x)
  after_note es count (panicked s) = finished (panicked s)

  abbrev pub after_mark : ℕ → Outcome (Unit {0}) → Phase P
  after_mark count (ok u) = finished (ok count)
  after_mark count (err x) = finished (err x)
  after_mark count (panicked s) = finished (panicked s)

module _ {P W : Type 0} (heap : Option (DlqHeap W)) (metrics : Option (Metrics W))
    (p : OutboxProcessor P W) where
  -- The next call; a finished batch makes none.
  unfoldable pub advance : Phase P → W → Phase P × W
  advance ready w =
      let (r, w') = p.storage.fetch_next_to_process p.config.batch_size w in (after_fetch r, w')
  advance (sending [] ids count) w = let (r, w') = mark p ids w in (after_mark count r, w')
  advance (sending (e ∷ es) ids count) w =
      let (r, w') = p.publisher.publish e w in (after_publish e es ids count r, w')
  advance (noting e v es ids count) w =
      let (r, w') = settle heap metrics e ids v w in (after_note es count r, w')
  advance (finished r) w = (finished r, w)

  -- So many calls, with nobody else acting in between.
  abbrev pub iterate : ℕ → Phase P × W → Phase P × W
  iterate zero c = c
  iterate (suc k) c = iterate k (advance c.0 c.1)
