-- ===== src/Tests/Background.antt =====
-- The doubles of the tests of outbox-core/src/gc.rs and outbox-core/src/dlq/processor.rs, and the
-- schedules that they drive.
pub mod Collector
pub mod Letters
use oxide_outbox.Prelude.{
  ℕ, suc, String, Bool, true, false, not, ◌&&◌, ◌||◌, ◌≡◌, refl, Option, none, some, List, [], ◌∷◌,
  leb, ◌==◌, if◌then◌else◌,
}
use oxide_outbox.Prelude.Int.{pos}
use oxide_outbox.Exec.{Outcome, ok, Exec, pure, raise, panic, database_error}
use oxide_outbox.Object.EventId.{load, as_uuid}
use oxide_outbox.Runtime.{Shutdown}
use oxide_outbox.Model.{DlqEntry, new_entry}
use oxide_outbox.Config.{OutboxConfig, disabled}
use oxide_outbox.Traits.{OutboxStorage, DlqHeap}
use oxide_outbox.Loop.{Flow, go_on, stop, starved, unwound, Turn}
use oxide_outbox.Gc
use oxide_outbox.Gc.{GarbageCollector, Arm, tick, changed, collect_garbage}
use oxide_outbox.Reaper
use oxide_outbox.Reaper.{DlqProcessor, reap}
use oxide_outbox.Tests.Mock.{Mock, mocked, is_met, exactly, never, checked, is_ok, is_database}

pub data TestPayload : Type 0 where
  test_payload : TestPayload

-- The calls of the doubles, and the shutdown channel.
pub record Calls : Type 0 where
  pub deletes : ℕ
  pub drains : ℕ
  pub quarantines : ℕ
  pub flag : Bool
  pub dropped : Bool

abbrev pub start : Calls
start = record { deletes = 0; drains = 0; quarantines = 0; flag = false; dropped = false }

abbrev pub rx : Shutdown Calls
rx = record { value = λ w. w.flag; closed = λ w. w.dropped }

pub record Setup : Type 0 where
  pub delete : Mock (Unit {0}) (Unit {0}) Calls
  pub drain : Mock ℕ (List DlqEntry) Calls
  pub quarantine : Mock (List DlqEntry) (Unit {0}) Calls

abbrev pub bare : Setup
bare = record { delete = never; drain = never; quarantine = never }

-- An expectation without `times`.
abbrev pub any_time : {A B : Type 0} → Exec Calls B → Mock A B Calls
any_time answer = record (exactly 0 answer) { times = none }

abbrev pub storage : Setup → OutboxStorage TestPayload Calls
storage s = record {
  fetch_next_to_process = λ n. panic "unexpected call";
  update_status = λ ids st. panic "unexpected call";
  delete_garbage = mocked s.delete (λ w. w.deletes) (λ w. record w { deletes = suc w.deletes }) tt;
  wait_for_notification = λ channel. panic "unexpected call";
  quarantine_events =
      mocked s.quarantine (λ w. w.quarantines) (λ w. record w { quarantines = suc w.quarantines });
}

abbrev pub met : Setup → Calls → Bool
met s w = is_met s.delete w.deletes && is_met s.drain w.drains && is_met s.quarantine w.quarantines

-- What the test does while the loop waits.
abbrev pub nothing : Calls → Calls
nothing w = w

abbrev pub send : Bool → Calls → Calls
send b w = record w { flag = b }

abbrev pub drop : Calls → Calls
drop w = record w { dropped = true }

abbrev pub at : (Calls → Calls) → Arm → Turn Arm Calls
at others arm = record { others = others; arm = arm }

abbrev pub stopped : Flow → Bool
stopped stop = true
stopped _ = false

abbrev pub running : Flow → Bool
running go_on = true
running _ = false
