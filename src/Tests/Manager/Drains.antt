-- ===== src/Tests/Manager/Drains.antt =====
-- The tests of outbox-core/src/manager.rs on what the inner loop sends.
use oxide_outbox.Prelude.{
  ℕ, String, Bool, true, not, ◌&&◌, ◌≡◌, refl, List, [], ◌∷◌, contains, length, leb, ◌==◌,
  if◌then◌else◌,
}
use oxide_outbox.Exec.{Exec, pure, raise, infrastructure_error}
use oxide_outbox.Object.EventId.{EventId}
use oxide_outbox.Object.EventType
use oxide_outbox.Object.Payload.{as_value}
use oxide_outbox.Model.{Event, EventStatus, sent, is_status, new_event}
use oxide_outbox.Builder.{build}
use oxide_outbox.Manager
use oxide_outbox.Manager.{Arm, notified, tick, changed, drain, round}
use oxide_outbox.Processor.{process_pending_events, event_publish}
use oxide_outbox.Tests.Mock.{exactly, checked}
use oxide_outbox.Tests.Manager.{
  SomeDomainEvent, some_event, Calls, start, bare, any_time, sending, passes, event, ids_of,
  is_text,
}

-- The first fetch, where the expectation on it is `times(1)`.
abbrev fetched : Calls → Bool
fetched w = leb 1 w.fetches

abbrev batch : List (Event SomeDomainEvent)
batch = event 1 "1" "test1" ∷ event 2 "2" "test2" ∷ event 3 "3" "test3" ∷ event 4 "4" "test4" ∷ []

abbrev text_of : SomeDomainEvent → String
text_of (some_event text) = text

-- The four expectations on `publish`, in sequence.
abbrev in_turn : Event SomeDomainEvent → ℕ → Bool
in_turn e i =
    let is : String → String → Bool = λ ty text.
      is_text (EventType.as_str e.event_type) ty && is_text (text_of (as_value e.payload)) text in
    if i == 0
    then is "1" "test1"
    else if i == 1
    then is "2" "test2"
    else if i == 2
    then is "3" "test3"
    else is "4" "test4"

abbrev pub test_event_send_success : Bool
test_event_send_success =
    let s = record bare {
      fetch = record (any_time (pure [])) {
        withf = λ l w. l == 100;
        returning = λ i l. if i == 0 then sending (pure batch) else pure [];
      };
      update = checked (λ x. (length x.0 == 4) && is_status x.1 sent) (any_time (pure tt));
      publish = record (exactly 4 (pure tt)) { withf = λ e w. in_turn e w.publishes };
      note = any_time (pure tt);
    } in
    passes s fetched start (notified ∷ []) && passes s fetched start (tick ∷ [])

abbrev three_sent : List EventId × EventStatus → Bool
three_sent (ids, status) =
    is_status status sent
    && (length ids == 3)
    && contains (ids_of ids) 1
    && contains (ids_of ids) 2
    && contains (ids_of ids) 4
    && not (contains (ids_of ids) 3)

abbrev pub test_publish_failure : Bool
test_publish_failure =
    let s = record bare {
      fetch = record (any_time (pure [])) {
        returning = λ i l. if i == 0 then pure batch else pure [];
      };
      update = checked three_sent (any_time (sending (pure tt)));
      publish = record (exactly 4 (pure tt)) {
        returning =
            λ i e. if i == 2 then raise (infrastructure_error "Connection lost") else pure tt;
      };
      note = any_time (pure tt);
    } in
    passes s fetched start (notified ∷ []) && passes s fetched start (tick ∷ [])

abbrev pub inner_loop_drains_until_empty_batch : Bool
inner_loop_drains_until_empty_batch =
    let answers : ℕ → Exec Calls (List (Event SomeDomainEvent)) = λ i.
      if i == 0
      then pure (event 1 "a1" "a1" ∷ event 2 "a2" "a2" ∷ [])
      else if i == 1
      then pure (event 3 "b1" "b1" ∷ [])
      else if i == 2
      then sending (pure [])
      else pure [] in
    let s = record bare {
      fetch = record (any_time (pure [])) { returning = λ i l. answers i };
      update = exactly 2 (pure tt);
      publish = exactly 3 (pure tt);
      note = any_time (pure tt);
    } in
    let enough : Calls → Bool = λ w. leb 3 w.fetches in
    passes s enough start (notified ∷ notified ∷ []) && passes s enough start (tick ∷ changed ∷ [])

all_pass :
    (test_event_send_success && test_publish_failure && inner_loop_drains_until_empty_batch) ≡ true
unfolding Manager.run round drain build process_pending_events event_publish new_event
all_pass = refl
