-- ===== src/Examples/Tables.antt =====
-- A small database for outbox-postgres/src/lib.rs.
use mathlib.Core.List.Memᴰ.{head, tail}
use oxide_outbox.Prelude.{
  ℕ, ◌+◌, ◌≤◌, ◌≡◌, refl, true, false, not, none, List, [], ◌∷◌, map, keep, Memᴰ, All, length,
  contains, arith, ◌==◌,
}
use oxide_outbox.Exec.{ok}
use oxide_outbox.Object.EventId.{load}
use oxide_outbox.Model.{Event, DlqEntry, new_entry, pending, processing, sent}
use oxide_outbox.Config.{OutboxConfig, default_config}
use oxide_outbox.Postgres.Sql.{Db, DeadLetter, uuid_of}
use oxide_outbox.Postgres.{is_garbage, fetch_next_to_process, delete_garbage, quarantine_events}
use oxide_outbox.Postgres.Fetch.Claims.{ClaimOf, fetch-ClaimOf}
use oxide_outbox.Postgres.Fetch.Exclusive.{fetch-exclusive}
use oxide_outbox.Postgres.Fetch.Backlog.{fetch_oldest}
use oxide_outbox.Postgres.Garbage.{delete_garbage-keeps}
use oxide_outbox.Postgres.Quarantine.{entry_uuid, is_named, letter, quarantine_events-moves}
use oxide_outbox.Examples.Batch.{event}

abbrev pub config : OutboxConfig ℕ
config = default_config

-- An expired claim, a pending row, a live claim, a row that is locked, and a sent one.
abbrev pub db : Db ℕ
db = record {
  rows =
      event 1 processing 50
      ∷ event 2 pending 7
      ∷ event 3 processing 9000000000000
      ∷ event 4 pending 3
      ∷ event 5 sent 0
      ∷ [];
  dead = [];
  now = 1000000000000;
  faults = none ∷ [];
  refusal = "duplicate key value violates unique constraint";
  row_locked = λ k. k == 4;
  listener = none;
}

abbrev fetched : List (Event ℕ)
fetched = event 1 processing 1000300000000 ∷ event 2 processing 1000300000000 ∷ []

fetched_ok : (fetch_next_to_process config 10 db).0 ≡ ok fetched
unfolding fetch_next_to_process
fetched_ok = refl

fetch-ClaimOf_example : All (ClaimOf config 10 db) fetched × (2 ≤ 10)
fetch-ClaimOf_example =
    fetch-ClaimOf config 10 db fetched (refl, (refl, (refl, (refl, (refl, tt))))) fetched_ok

abbrev first : List (Event ℕ)
first = event 2 processing 1000300000000 ∷ []

first_ok : (fetch_next_to_process config 1 db).0 ≡ ok first
unfolding fetch_next_to_process
first_ok = refl

fetch_oldest_example : 7 ≤ 50
fetch_oldest_example =
    fetch_oldest config 1 db first (event 2 pending 7) (event 1 processing 50)
      (refl, (refl, (refl, (refl, (refl, tt))))) first_ok (tail (head refl)) (head refl)
      (refl, refl) refl refl

-- Another worker, a minute later.
abbrev db_later : Db ℕ
db_later = record (fetch_next_to_process config 1 db).1 { now = 1000060000000 }

second_ok :
    (fetch_next_to_process config 10 db_later).0 ≡ ok (event 1 processing 1000360000000 ∷ [])
unfolding fetch_next_to_process
second_ok = refl

fetch-exclusive_example :
    All
      (λ (e : Event ℕ). contains (map uuid_of first) (uuid_of e) ≡ false)
      (event 1 processing 1000360000000 ∷ [])
fetch-exclusive_example =
    fetch-exclusive config 1 db config 10 db_later first (event 1 processing 1000360000000 ∷ [])
      first_ok refl (omega arith) second_ok

delete_garbage-keeps_example :
    let db' = (delete_garbage config db).1 in
    let old = is_garbage {P = ℕ} db.now config.retention_days in
    (keep (λ e. not (old e)) db'.rows ≡ keep (λ e. not (old e)) db.rows)
    × (length db.rows ≤ length db'.rows + 5000)
    × (length (keep old db.rows) ≤ 5000 → All (λ e. old e ≡ false) db'.rows)
    × (db'.dead ≡ [])
unfolding delete_garbage
delete_garbage-keeps_example =
    delete_garbage-keeps config db tt (refl, (refl, (refl, (refl, (refl, tt))))) refl

abbrev entries : List DlqEntry
entries = new_entry (load 3) 10 none ∷ new_entry (load 9) 12 none ∷ []

quarantine_events-moves_example :
    let db' = (quarantine_events entries db).1 in
    (length db'.rows + length db'.dead ≡ 5)
    × (db'.rows ≡ keep (λ e. not (is_named entries e)) db.rows)
    × ((l : DeadLetter ℕ) → Memᴰ l [] → Memᴰ l db'.dead)
    × ((e : Event ℕ)
        → Memᴰ e db.rows
        → is_named entries e ≡ true
        → (f : DlqEntry) × Memᴰ f entries
          × (entry_uuid f ≡ uuid_of e)
          × Memᴰ (letter db.now e f) db'.dead)
unfolding quarantine_events
quarantine_events-moves_example = quarantine_events-moves entries db tt refl

-- Two entries for one row make two dead letters with one key.
abbrev doubled : List DlqEntry
doubled = new_entry (load 3) 10 none ∷ new_entry (load 3) 11 none ∷ []
