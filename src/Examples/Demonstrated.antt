-- ===== src/Examples/Demonstrated.antt =====
-- The programs under example, run.
use text.Mathlib.Text.{◌==◌}
use oxide_outbox.Prelude.{
  ℕ, suc, String, Bool, true, false, ◌||◌, ◌≡◌, refl, none, List, [], ◌∷◌, length, if◌then◌else◌,
}
use oxide_outbox.Exec.{ok, err, panicked}
use oxide_outbox.Object.IdempotencyToken.{as_str}
use oxide_outbox.Runtime.{Runtime}
use oxide_outbox.Model.{Event, new_event}
use oxide_outbox.Config.{invoke}
use oxide_outbox.Traits.{OutboxWriter, IdempotencyStorageProvider}
use oxide_outbox.Service.{add_event, reserve}
use oxide_outbox.Demo.{
  DemoEvent, Sender, flaky_publisher, dlq_inserts, deduplication_inserts, in_memory_inserts,
}

record World (P : Type 0) : Type 0 where
  next : ℕ
  rows : List (Event P)
  tokens : List String
  received : List (Event P)

abbrev rt : {P : Type 0} → Runtime (World P)
rt = record {
  new_v4 = λ w. (w.next, record w { next = suc w.next });
  now_v7 = λ w. (w.next, record w { next = suc w.next });
  uuid_text = λ n. "018f";
  now_utc = λ w. (w.next, w);
}

abbrev writer : {P : Type 0} → OutboxWriter P (World P)
writer = record { insert_event = λ e w. (ok tt, record w { rows = e ∷ w.rows }) }

abbrev has : List String → String → Bool
has [] t = false
has (s ∷ ss) t = (s == t) || has ss t

abbrev provider : {P : Type 0} → IdempotencyStorageProvider (World P)
provider = record {
  try_reserve = λ t w.
      if has w.tokens (as_str t)
      then (ok false, w)
      else (ok true, record w { tokens = as_str t ∷ w.tokens });
}

abbrev send : {P : Type 0} → Sender P (World P)
send e w = (none, record w { received = e ∷ w.received })

abbrev empty : {P : Type 0} → World P
empty = record { next = 1; rows = []; tokens = []; received = [] }

-- distributed-deduplication records its event once.
deduplicated : length (deduplication_inserts (λ w. w) rt writer provider empty).1.rows ≡ 1
unfolding add_event invoke reserve new_event
deduplicated = refl

-- outbox-in-memory, whose strategy discards the token, records it twice.
not_deduplicated : length (in_memory_inserts rt writer empty).1.rows ≡ 2
unfolding add_event invoke reserve new_event
not_deduplicated = refl

-- The worker's broker in dlq-example takes the first of its events, and not the second.
abbrev delivered : List (Event DemoEvent) → List Bool
delivered [] = []
delivered (e ∷ es) = elim ((flaky_publisher send).publish e empty).0 [
  | ok u ↦ true ∷ delivered es
  | err x ↦ false ∷ delivered es
  | panicked m ↦ delivered es
]

cursed : delivered (dlq_inserts rt writer empty).1.rows ≡ false ∷ true ∷ []
unfolding add_event invoke reserve new_event
cursed = refl
