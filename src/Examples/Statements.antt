-- ===== src/Examples/Statements.antt =====
-- The writer, the listener and sequences of statements on the database of `Examples.Tables`.
use oxide_outbox.Prelude.{
  true, false, ℕ, String, ◌≡◌, refl, Option, none, some, List, [], ◌∷◌, All, contains, ◌==◌,
}
use oxide_outbox.Exec.{ok}
use oxide_outbox.Object.EventId.{load}
use oxide_outbox.Object.Payload
use oxide_outbox.Model.{Event, pending, processing, sent, new_entry}
use oxide_outbox.Service.AddEvent.{IsWriter}
use oxide_outbox.Postgres.Sql.{Db, uuid_of}
use oxide_outbox.Postgres.Listener.{wait_for_notification}
use oxide_outbox.Postgres.Writer.{postgres_writer, insert_event}
use oxide_outbox.Postgres.{update_status, fetch_next_to_process, quarantine_events}
use oxide_outbox.Postgres.Contracts.{postgres_writer-IsWriter, update_status-final}
use oxide_outbox.Postgres.Schema.{IsSchema}
use oxide_outbox.Postgres.Schema.Reach.{Reach, inserted, fetched, quarantined, here, next}
use oxide_outbox.Postgres.Schema.Invariant.{
  listening, wait_for_notification-listener, Reach-IsSchema,
}
use oxide_outbox.Postgres.Schema.Bounds.{AllFit, Reach-AllFit}
use oxide_outbox.Examples.Batch.{event}
use oxide_outbox.Examples.Tables.{config, db}

-- An encoder that knows no event with payload 13.
abbrev to_value : Payload.Payload ℕ → Option String
to_value p = elim (p.inner == 13) [ true ↦ some "unlucky" | false ↦ none ]

postgres_writer-IsWriter_example : IsWriter (λ (d : Db ℕ). d.rows) (postgres_writer to_value)
postgres_writer-IsWriter_example = postgres_writer-IsWriter to_value

abbrev marked : Db ℕ
marked = (update_status (load 2 ∷ load 4 ∷ []) sent db).1

-- Much later, with no row held by another transaction.
abbrev marked_later : Db ℕ
marked_later = record marked { now = 9900000000000; row_locked = λ k. false }

abbrev refetched : List (Event ℕ)
refetched = event 1 processing 9900300000000 ∷ event 3 processing 9900300000000 ∷ []

marked_ok : (update_status (load 2 ∷ load 4 ∷ []) sent db).0 ≡ ok tt
unfolding update_status
marked_ok = refl

refetched_ok : (fetch_next_to_process config 10 marked_later).0 ≡ ok refetched
unfolding fetch_next_to_process update_status
refetched_ok = refl

update_status-final_example :
    All (λ (e : Event ℕ). contains (2 ∷ 4 ∷ []) (uuid_of e) ≡ false) refetched
update_status-final_example =
    update_status-final (load 2 ∷ load 4 ∷ []) db marked_later config 10 refetched marked_ok refl
      refetched_ok

abbrev lost : Db ℕ
lost = record db { faults = none ∷ none ∷ some "connection reset" ∷ [] }

wait_for_notification-listener_example :
    let done = wait_for_notification "outbox_event" lost in
    (done.1.rows ≡ db.rows)
    × (done.1.dead ≡ [])
    × (done.0 ≡ ok tt → done.1.listener ≡ some (listening "outbox_event" none))
    × (¬ (done.0 ≡ ok tt) → done.1.listener ≡ none)
wait_for_notification-listener_example = wait_for_notification-listener "outbox_event" lost

abbrev after_insert : Db ℕ
after_insert = (insert_event to_value (event 6 pending 0) db).1

abbrev after_fetch : Db ℕ
after_fetch = (fetch_next_to_process config 2 after_insert).1

abbrev after_quarantine : Db ℕ
after_quarantine = (quarantine_events (new_entry (load 6) 3000000000 none ∷ []) after_fetch).1

start_to_end : Reach ℕ to_value db after_quarantine
start_to_end =
    next (next (next here (inserted (event 6 pending 0) db)) (fetched config 2 after_insert))
      (quarantined (new_entry (load 6) 3000000000 none ∷ []) after_fetch)

Reach-IsSchema_example : IsSchema after_quarantine
Reach-IsSchema_example =
    Reach-IsSchema to_value {start = db} {db = after_quarantine} start_to_end
      ((refl, (refl, (refl, (refl, (refl, tt))))), (refl, (refl, (refl, (refl, (refl, tt))))), refl)

Reach-AllFit_example : AllFit after_quarantine
Reach-AllFit_example = Reach-AllFit to_value {start = db} {db = after_quarantine} start_to_end tt
