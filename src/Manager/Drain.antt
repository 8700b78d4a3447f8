-- ===== src/Manager/Drain.antt =====
-- The inner loop of `OutboxManager::run` in manager.rs ends.
use oxide_outbox.Prelude.{
  ℕ, zero, suc, ◌<◌, ◌≡◌, ◌≢◌, refl, Option, String, arith, inl, inr, Bool-cases,
}
use oxide_outbox.Exec.{Outcome, ok, err, panicked}
use oxide_outbox.Runtime.{Shutdown, Metrics}
use oxide_outbox.Processor.{process_pending_events}
use oxide_outbox.Loop.{Flow}
use oxide_outbox.Loop.Stopping.{Survives}
use oxide_outbox.Exec.Laws.{Returns}
use oxide_outbox.Manager.{OutboxManager, processor, after_batch, drain}

-- A backlog that every batch with events makes smaller.
pub record IsShrinking {P W : Type 0} (metrics : Option (Metrics W)) (m : OutboxManager P W)
    (backlog : W → ℕ) : Type 0 where
  pub returns : Returns (process_pending_events m.dlq_heap metrics (processor m))
  pub shrinks :
      (w : W) (n : ℕ)
      → (process_pending_events m.dlq_heap metrics (processor m) w).0 ≡ ok (suc n)
      → backlog (process_pending_events m.dlq_heap metrics (processor m) w).1 < backlog w

after_batch-Survives :
    {W : Type 0} (rx : Shutdown W) (r : Outcome ℕ × W) (again : W → Flow × W)
    → ((s : String) → r.0 ≢ panicked s)
    → ((n : ℕ) → r.0 ≡ ok (suc n) → Survives rx (again r.1).0 (again r.1).1)
    → Survives rx (after_batch r again).0 (after_batch r again).1
after_batch-Survives rx (ok zero, w) again h k = tt
after_batch-Survives rx (ok (suc n), w) again h k = k n refl
after_batch-Survives rx (err e, w) again h k = tt
after_batch-Survives rx (panicked s, w) again h k = h s refl

-- The drain loop terminates: where every batch with events shrinks a backlog, fuel above the
-- backlog is enough, and the loop ends by an empty batch, an error or a shutdown that is signalled.
-- The processor does not panic.
pub drain-Survives :
    {P W : Type 0} (metrics : Option (Metrics W)) (m : OutboxManager P W) (backlog : W → ℕ)
    (fuel : ℕ) (w : W)
    → IsShrinking metrics m backlog
    → backlog w < fuel
    → Survives m.shutdown_rx (drain metrics m fuel w).0 (drain metrics m fuel w).1
unfolding drain
drain-Survives metrics m backlog zero w c h = absurd (omega arith)
drain-Survives metrics m backlog (suc fuel) w c h = elim (Bool-cases (m.shutdown_rx.value w)) [
  | inl raised ↦ rw raised (ground arith)
  | inr still ↦ rw still (
      after_batch-Survives m.shutdown_rx _ _ (c.returns w)
        (λ n e. drain-Survives metrics m backlog fuel _ c (omega (arith, c.shrinks w n e))))
]
