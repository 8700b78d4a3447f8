-- ===== src/Manager/Stopping.antt =====
-- How `OutboxManager::run` in manager.rs stops.
use oxide_outbox.Prelude.{
  ℕ, zero, suc, true, ◌≡◌, refl, Option, List, All, String, arith, inl, inr, Bool-cases,
}
use oxide_outbox.Exec.{Outcome, ok, err, panicked}
use oxide_outbox.Runtime.{Shutdown, Metrics}
use oxide_outbox.Loop.{Flow, go_on, unwound, Turn, on_changed}
use oxide_outbox.Loop.Stopping.{
  StopsOnSignal, on_changed-StopsOnSignal, resume_post, run_loop-post, run_loop-invariant,
}
use oxide_outbox.Manager.{
  OutboxManager, Arm, notified, tick, changed, after_batch, on_signal, drain, round, run,
}

after_batch_post :
    {W : Type 0} (Q : Flow → W → Type 0)
    → ((w : W) → Q go_on w)
    → ((s : String) (w : W) → Q (unwound s) w)
    → (r : Outcome ℕ × W) (again : W → Flow × W) → ((w : W) → Q (again w).0 (again w).1)
    → Q (after_batch r again).0 (after_batch r again).1
after_batch_post Q onward lost (ok zero, w) again h = onward w
after_batch_post Q onward lost (ok (suc n), w) again h = h w
after_batch_post Q onward lost (err e, w) again h = onward w
after_batch_post Q onward lost (panicked s, w) again h = lost s w

on_signal_post :
    {W : Type 0} (Q : Flow → W → Type 0)
    → ((w : W) → Q go_on w)
    → ((s : String) (w : W) → Q (unwound s) w)
    → (r : Outcome (Unit {0}) × W) (inner : W → Flow × W) → ((w : W) → Q (inner w).0 (inner w).1)
    → Q (on_signal r inner).0 (on_signal r inner).1
unfolding on_signal
on_signal_post Q onward lost (ok u, w) inner h = h w
on_signal_post Q onward lost (err e, w) inner h = onward w
on_signal_post Q onward lost (panicked s, w) inner h = lost s w

on_signal-keeps :
    {W : Type 0} (I : W → Type 0) (r : Outcome (Unit {0}) × W) (inner : W → Flow × W)
    → I r.1
    → ((w : W) → I w → I (inner w).1)
    → I (on_signal r inner).1
unfolding on_signal
on_signal-keeps I (ok u, w) inner now h = h w now
on_signal-keeps I (err e, w) inner now h = now
on_signal-keeps I (panicked s, w) inner now h = now

on_changed-world : {W : Type 0} (rx : Shutdown W) (w : W) → (on_changed rx w).1 ≡ w
on_changed-world rx w = ground arith

module _ {P W : Type 0} (metrics : Option (Metrics W)) (m : OutboxManager P W) where
  drain-StopsOnSignal :
      (fuel : ℕ) (w : W)
      → StopsOnSignal m.shutdown_rx (drain metrics m fuel w).0 (drain metrics m fuel w).1
  unfolding drain
  drain-StopsOnSignal zero w = tt
  drain-StopsOnSignal (suc fuel) w = elim (Bool-cases (m.shutdown_rx.value w)) [
    | inl raised ↦ rw raised (ground arith)
    | inr still ↦ rw still (
        after_batch_post (StopsOnSignal m.shutdown_rx) (λ v. tt) (λ s v. tt) _ _
          (drain-StopsOnSignal fuel))
  ]

  round-StopsOnSignal :
      (fuel : ℕ) (arm : Arm) (w : W)
      → StopsOnSignal m.shutdown_rx (round metrics m fuel arm w).0 (round metrics m fuel arm w).1
  unfolding round
  round-StopsOnSignal fuel notified w =
      on_signal_post (StopsOnSignal m.shutdown_rx) (λ v. tt) (λ s v. tt) _ _
        (drain-StopsOnSignal fuel)
  round-StopsOnSignal fuel tick w = drain-StopsOnSignal fuel w
  round-StopsOnSignal fuel changed w =
      resume_post (StopsOnSignal m.shutdown_rx) (on_changed m.shutdown_rx w) _
        (on_changed-StopsOnSignal m.shutdown_rx w)
        (λ _. drain-StopsOnSignal fuel (on_changed m.shutdown_rx w).1)

  -- Over every schedule the worker returns only with the shutdown channel signalled or closed: no
  -- error of the storage, the broker, the heap or the notification channel ends it.
  pub run-StopsOnSignal :
      (fuel : ℕ) (ts : List (Turn Arm W)) (w : W)
      → StopsOnSignal m.shutdown_rx (run metrics m fuel ts w).0 (run metrics m fuel ts w).1
  unfolding run
  run-StopsOnSignal fuel ts w =
      run_loop-post (round metrics m fuel) (StopsOnSignal m.shutdown_rx) (λ v. tt)
        (round-StopsOnSignal fuel) ts w

  -- The shutdown value is up, and `fetches` counted so many.
  abbrev pub Down : (W → ℕ) → ℕ → W → Type 0
  Down fetches k w = (m.shutdown_rx.value w ≡ true) × (fetches w ≡ k)

  drain-Down :
      (fetches : W → ℕ) (k fuel : ℕ) (w : W)
      → Down fetches k w
      → Down fetches k (drain metrics m fuel w).1
  unfolding drain
  drain-Down fetches k zero w h = h
  drain-Down fetches k (suc fuel) w h = rw h.0 h

  round-Down :
      (fetches : W → ℕ) (k fuel : ℕ)
      → ((w : W)
          → Down fetches k w
          → Down fetches k (m.storage.wait_for_notification "outbox_event" w).1)
      → (arm : Arm) (w : W) → Down fetches k w
      → Down fetches k (round metrics m fuel arm w).1
  unfolding round
  round-Down fetches k fuel waits notified w h =
      on_signal-keeps (Down fetches k) _ _ (waits w h) (drain-Down fetches k fuel)
  round-Down fetches k fuel waits tick w h = drain-Down fetches k fuel w h
  round-Down fetches k fuel waits changed w h =
      let same : Down fetches k (on_changed m.shutdown_rx w).1 =
        rw (on_changed-world m.shutdown_rx w) h in
      resume_post (λ _ v. Down fetches k v) (on_changed m.shutdown_rx w) _ same
        (λ _. drain-Down fetches k fuel _ same)

  -- Once the shutdown value is up no new batch is begun: over every schedule in which it stays up,
  -- and in which neither the other tasks nor the wait for a notification fetch, the worker fetches
  -- nothing, whichever arms run.
  pub run-Down :
      (fetches : W → ℕ) (fuel : ℕ) (ts : List (Turn Arm W)) (w : W)
      → ((k : ℕ) (v : W)
          → Down fetches k v
          → Down fetches k (m.storage.wait_for_notification "outbox_event" v).1)
      → All (λ t. (v : W) → Down fetches (fetches w) v → Down fetches (fetches w) (t.others v)) ts
      → m.shutdown_rx.value w ≡ true
      → fetches (run metrics m fuel ts w).1 ≡ fetches w
  unfolding run
  run-Down fetches fuel ts w waits friendly raised =
      (run_loop-invariant (round metrics m fuel) (Down fetches (fetches w))
        (round-Down fetches (fetches w) fuel (waits (fetches w))) ts friendly w (raised, refl)).1
