-- ===== src/System/Forward.antt =====
-- What a run of the worker loop of manager.rs does to the tables of outbox-postgres/src/lib.rs.
use oxide_outbox.Prelude.{
  ℕ, String, ◌≤◌, true, ◌≡◌, refl, sym, subst, ◌∙◌, ap, inl, inr, List, [], ◌∷◌, map, Memᴰ, All,
  All-map, contains, arith, Bool-cases,
}
use mathlib.Core.List.Memᴰ.{head, tail}
use oxide_outbox.Object.EventId.{EventId, as_uuid}
use oxide_outbox.Runtime.{Shutdown, Timestamp}
use oxide_outbox.Model.{Event, EventStatus, pending, processing, sent}
use oxide_outbox.Config.{OutboxConfig}
use oxide_outbox.Prelude.Int.{ℤ}
use oxide_outbox.Loop.{Turn}
use oxide_outbox.Manager
use oxide_outbox.Processor.Aside.{publish_all-Keeps}
use oxide_outbox.Postgres.Sql.{Db, uuid_of}
use oxide_outbox.Postgres.{
  claim, eligible, selected, set_status, fetch_rows, fetch_next_to_process, update_status,
}
use oxide_outbox.Postgres.Fetch.{Keyed, Keyed-unique}
use oxide_outbox.Postgres.Fetch.Selection.{selected-Claimable}
use oxide_outbox.Postgres.Statement.{statement_keeps}
use oxide_outbox.Postgres.Listener.{wait_for_notification}
use oxide_outbox.Postgres.Schema.Invariant.{wait_for_notification-listener}
use oxide_outbox.System.{measured, heaped}
use oxide_outbox.System.Batch.{carried-IsAside}
use oxide_outbox.System.Kept.{IsKept, run-Kept}
use oxide_outbox.System.Cluster.{Site, site_processor}
use oxide_outbox.System.Cluster.Runs.Worker.{site_worker}

-- How far an event has come.
abbrev pub stage : EventStatus → ℕ
stage pending = 0
stage processing = 1
stage sent = 2

-- The same rows in the same order, each with its other columns as they were, its status no earlier
-- than it was, and also its lock as it was where it was `Sent` already.
pub data Forward {P : Type 0} : List (Event P) → List (Event P) → Type 0 where
  none_left : Forward [] []
  row :
      (e : Event P) (status : EventStatus) (locked_until : Timestamp) {es es' : List (Event P)}
      → stage e.status ≤ stage status
      → (e.status ≡ sent → locked_until ≡ e.locked_until)
      → Forward es es'
      → Forward (e ∷ es) (record e { status = status; locked_until = locked_until } ∷ es')

sent_last : (a b : EventStatus) → stage a ≤ stage b → a ≡ sent → b ≡ sent
sent_last pending b h q = cc
sent_last processing b h q = cc
sent_last sent pending h q = absurd (omega arith)
sent_last sent processing h q = absurd (omega arith)
sent_last sent sent h q = refl

module _ {P : Type 0} where
  pub Forward-refl : (es : List (Event P)) → Forward es es
  Forward-refl [] = none_left
  Forward-refl (e ∷ es) = row e e.status e.locked_until (omega arith) (λ h. refl) (Forward-refl es)

  Forward-trans :
      {es es' es'' : List (Event P)} → Forward es es' → Forward es' es'' → Forward es es''
  Forward-trans none_left g = g
  Forward-trans (row e st t h k f) (row _ st' t' h' k' f') =
      row e st' t' (omega arith) (λ q. k' (sent_last e.status st h q) ∙ k q) (Forward-trans f f')

  uuids-Forward : {es es' : List (Event P)} → Forward es es' → map uuid_of es' ≡ map uuid_of es
  uuids-Forward none_left = refl
  uuids-Forward (row e st t h k f) = ap (λ ks. uuid_of e ∷ ks) (uuids-Forward f)

  Keyed-Forward : {es es' : List (Event P)} → Forward es es' → Keyed es → Keyed es'
  Keyed-Forward none_left k = k
  Keyed-Forward (row e st t h l f) k = (rw (uuids-Forward f) k.0, Keyed-Forward f k.1)

  claim-Forward :
      (ids : List ℕ) (until : Timestamp) (es : List (Event P))
      → ((e : Event P) → Memᴰ e es → contains ids (uuid_of e) ≡ true → stage e.status ≤ 1)
      → Forward es (map (claim ids until) es)
  claim-Forward ids until [] h = none_left
  claim-Forward ids until (e ∷ es) h =
      let rest = claim-Forward ids until es (λ x i. h x (tail i)) in
      elim (Bool-cases (contains ids (uuid_of e))) [
        | inl t ↦ rw t (
            row e processing until (h e (head refl) t)
              (λ q. absurd (unsent e (h e (head refl) t) q)) rest)
        | inr n ↦ rw n (row e e.status e.locked_until (omega arith) (λ q. refl) rest)
      ]
    where
      unsent : (e : Event P) → stage e.status ≤ 1 → e.status ≡ sent → ⊥
      unsent e l q = let l' : 2 ≤ 1 = rw q at l in absurd (omega arith)

  set_status-Forward :
      (ids : List ℕ) (es : List (Event P)) → Forward es (map (set_status ids sent) es)
  set_status-Forward ids [] = none_left
  set_status-Forward ids (e ∷ es) =
      let rest = set_status-Forward ids es in
      elim (Bool-cases (contains ids (uuid_of e))) [
        | inl t ↦ rw t (row e sent e.locked_until (last e.status) (λ q. refl) rest)
        | inr n ↦ rw n (row e e.status e.locked_until (omega arith) (λ q. refl) rest)
      ]
    where
      last : (st : EventStatus) → stage st ≤ 2
      last pending = omega arith
      last processing = omega arith
      last sent = omega arith

  claimable-stage : (now : Timestamp) (e : Event P) → eligible now e ≡ true → stage e.status ≤ 1
  claimable-stage now e h = ground arith

  -- No row was added, removed or turned back, and the dead letters are as they were.
  abbrev pub Onward : Db P → Db P → Type 0
  Onward db db' = Forward db.rows db'.rows × (db'.dead ≡ db.dead)

  module _ (start : Db P) (keyed : Keyed start.rows) where
    fetch_rows-Onward :
        (limit : ℕ) (mins : ℤ) (db : Db P)
        → Onward start db
        → Onward start (fetch_rows limit mins db).1
    unfolding fetch_rows
    fetch_rows-Onward limit mins db (f, d) =
        let unsent : (e : Event P)
            → Memᴰ e db.rows
            → contains (selected limit db) (uuid_of e) ≡ true
            → stage e.status ≤ 1 =
          λ e i h.
            let (a, j, q, (can, _)) = selected-Claimable limit db (uuid_of e) h in
            let one : a ≡ e = Keyed-unique db.rows a e (Keyed-Forward f keyed) j i q in
            claimable-stage db.now e (rw one at can) in
        (Forward-trans f (claim-Forward _ _ db.rows unsent), d)

    fetch-Onward :
        (config : OutboxConfig P) (limit : ℕ) (db : Db P)
        → Onward start db
        → Onward start (fetch_next_to_process config limit db).1
    unfolding fetch_next_to_process
    fetch-Onward config limit =
        statement_keeps (Onward start) (λ db faults h. h)
          (fetch_rows limit config.lock_timeout_mins)
          (fetch_rows-Onward limit config.lock_timeout_mins)

    update-Onward :
        (ids : List EventId) (db : Db P)
        → Onward start db
        → Onward start (update_status ids sent db).1
    unfolding update_status
    update-Onward ids =
        statement_keeps (Onward start) (λ db faults h. h) _
          (λ db h. (Forward-trans h.0 (set_status-Forward (map as_uuid ids) db.rows), h.1))

    wait-Onward :
        (channel : String) (db : Db P)
        → Onward start db
        → Onward start (wait_for_notification channel db).1
    wait-Onward channel db h =
        let (rows, dead, _, _) = wait_for_notification-listener channel db in
        (rw rows h.0, dead ∙ h.1)

module _ {P X : Type 0} (s : Site P X) (rx : Shutdown (Db P × X)) where
  IsKept-Onward : (start : Db P) → Keyed start.rows → IsKept s (λ (w : Db P × X). Onward start w.0)
  IsKept-Onward start keyed = record {
    by_fetch = λ n w. fetch-Onward start keyed s.config n w.0;
    by_loop = λ es w h.
        subst (Onward start)
          (sym (
            (publish_all-Keeps (heaped s.heap) (measured s.metrics) (λ (v : Db P × X). v.0)
                (site_processor s) (carried-IsAside s.transport s.heap s.metrics) es []).same
              w))
          h;
    by_update = λ ids w. update-Onward start keyed ids w.0;
    by_wait = λ channel w. wait-Onward start keyed channel w.0;
  }

  -- A run of the worker, however it ends, over every schedule and with every broker and heap, only
  -- moves rows forward: it adds and removes none, changes their order and their columns nowhere but
  -- in the status and the lock, takes no status back from `Sent` to `Processing` or from there to
  -- `Pending`, leaves a row that was `Sent` as it was, and leaves the dead letters as they were; if
  -- no other task of the schedule does more. The table has a primary key.
  pub worker_run-Onward :
      (fuel : ℕ) (ts : List (Turn Manager.Arm (Db P × X))) (w : Db P × X)
      → Keyed w.0.rows
      → All (λ t. (v : Db P × X) → Keyed v.0.rows → Onward v.0 (t.others v).0) ts
      → Onward w.0 (Manager.run (measured s.metrics) (site_worker s rx) fuel ts w).1.0
  worker_run-Onward fuel ts w keyed others =
      run-Kept s (λ (v : Db P × X). Onward w.0 v.0) (IsKept-Onward w.0 keyed) rx fuel ts
        (All-map (λ t. (v : Db P × X) → Keyed v.0.rows → Onward v.0 (t.others v).0)
          (λ t. (v : Db P × X) → Onward w.0 v.0 → Onward w.0 (t.others v).0)
          (λ t does v h.
            let (f, d) = does v (Keyed-Forward h.0 keyed) in (Forward-trans h.0 f, d ∙ h.1))
          ts others)
        w (Forward-refl w.0.rows, refl)
