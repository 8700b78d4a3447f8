-- ===== src/Loop.antt =====
-- The shape that the background loops of outbox-core share: `loop { tokio::select! { … } }` over a
-- schedule. The scheduler's choices are arguments: what the other tasks do to the world while the
-- loop waits, and which arm of the `select!` then runs.
pub mod Stopping
use oxide_outbox.Prelude.{String, Bool, ◌||◌, List, [], ◌∷◌, if◌then◌else◌}
use oxide_outbox.Exec.{Outcome, ok, err, panicked}
use oxide_outbox.Runtime.{Shutdown}

-- How a round ends. `starved` is no behaviour of the code: an inner loop used up its fuel.
pub data Flow : Type 0 where
  go_on stop starved : Flow
  unwound : String → Flow

pub record Turn (Arm W : Type 0) : Type 0 where
  pub others : W → W
  pub arm : Arm

-- `rx.has_changed().is_err() || *rx.borrow()`
abbrev pub signalled : {W : Type 0} → Shutdown W → W → Bool
signalled rx w = rx.closed w || rx.value w

-- The arm of `rx.changed()`: two tests, each with a `break`.
abbrev pub on_changed : {W : Type 0} → Shutdown W → W → Flow × W
on_changed rx w = if rx.closed w then (stop, w) else if rx.value w then (stop, w) else (go_on, w)

-- A round whose result is dropped or logged: only a panic ends the task.
abbrev pub swallow : {A W : Type 0} → Outcome A × W → Flow × W
swallow (ok a, w) = (go_on, w)
swallow (err e, w) = (go_on, w)
swallow (panicked s, w) = (unwound s, w)

-- What a round leaves for the rest of the schedule.
abbrev pub resume : {W : Type 0} → Flow × W → (W → Flow × W) → Flow × W
resume (go_on, w) next = next w
resume (stop, w) next = (stop, w)
resume (starved, w) next = (starved, w)
resume (unwound s, w) next = (unwound s, w)

module _ {Arm W : Type 0} where
  -- `go_on` at the end: the loop still runs when the schedule is over.
  unfoldable pub run_loop : (Arm → W → Flow × W) → List (Turn Arm W) → W → Flow × W
  run_loop round [] w = (go_on, w)
  run_loop round (t ∷ ts) w = resume (round t.arm (t.others w)) (λ v. run_loop round ts v)
