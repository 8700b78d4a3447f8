-- ===== src/Tests/Mock.antt =====
-- The doubles of `mockall`: an expectation on one method, and the assertions of the tests.
use oxide_outbox.Prelude.{ℕ, Bool, true, false, ◌&&◌, Option, none, some, ltb, ◌==◌, if◌then◌else◌}
use oxide_outbox.Exec.{
  infrastructure_error, duplicate_event, database_error, Outcome, ok, err, panicked, Exec, panic,
}

-- `expect_…().withf(…).times(…).returning(…)`; the answers know how many calls came before.
pub record Mock (A B W : Type 0) : Type 0 where
  pub withf : A → W → Bool
  pub times : Option ℕ
  pub returning : ℕ → A → Exec W B

abbrev pub has_room : Option ℕ → ℕ → Bool
has_room none calls = true
has_room (some n) calls = ltb calls n

abbrev pub is_reached : Option ℕ → ℕ → Bool
is_reached none calls = true
is_reached (some n) calls = calls == n

module _ {A B W : Type 0} where
  -- A call of the double: one that it does not expect panics. `calls` reads the count of its calls
  -- off the world, and `note` counts one.
  abbrev pub mocked : Mock A B W → (W → ℕ) → (W → W) → A → Exec W B
  mocked m calls note a w =
      if m.withf a w && has_room m.times (calls w)
      then m.returning (calls w) a (note w)
      else (panicked "unexpected call", w)

  -- What the double checks when it is dropped.
  abbrev pub is_met : Mock A B W → ℕ → Bool
  is_met m calls = is_reached m.times calls

  abbrev pub exactly : ℕ → Exec W B → Mock A B W
  exactly n answer = record { withf = λ a w. true; times = some n; returning = λ i a. answer }

  -- `times(0)`, and a method without an expectation.
  abbrev pub never : Mock A B W
  never = exactly 0 (panic "unexpected call")

  abbrev pub checked : (A → Bool) → Mock A B W → Mock A B W
  checked p m = record m { withf = λ a w. p a }

module _ {A : Type 0} where
  abbrev pub is_ok : Outcome A → Bool
  is_ok (ok a) = true
  is_ok (err e) = false
  is_ok (panicked s) = false

  abbrev pub is_duplicate : Outcome A → Bool
  is_duplicate (err duplicate_event) = true
  is_duplicate _ = false

  abbrev pub is_infrastructure : Outcome A → Bool
  is_infrastructure (err (infrastructure_error s)) = true
  is_infrastructure _ = false

  abbrev pub is_database : Outcome A → Bool
  is_database (err (database_error s)) = true
  is_database _ = false

abbrev pub is_count : ℕ → Outcome ℕ → Bool
is_count n (ok m) = m == n
is_count n (err e) = false
is_count n (panicked s) = false
