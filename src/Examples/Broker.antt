-- ===== src/Examples/Broker.antt =====
-- A Kafka producer that keeps what it took.
use oxide_outbox.Prelude.{ℕ, String, true, ◌≡◌, ◌⊎◌, some, List, [], ◌∷◌, if◌then◌else◌}
use oxide_outbox.Exec.{ok, err, infrastructure_error}
use oxide_outbox.Object.IdempotencyToken
use oxide_outbox.Model.{Event, processing}
use oxide_outbox.Kafka.{KafkaRecord, KafkaCodecs, KafkaTransport, bytes, unencodable, publish}
use oxide_outbox.Kafka.Publish.{Carries, publish-Carries}
use oxide_outbox.Examples.Batch.{event}

abbrev codecs : KafkaCodecs ℕ
codecs = record {
  to_vec = λ p. bytes (p.inner ∷ []);
  kafka_key = λ n. n ∷ [];
  uuid_text = λ n. "018f";
  time_text = λ n. "1970-01-01";
}

abbrev transport : KafkaTransport (List KafkaRecord)
transport = record { send = λ r w. (true, r ∷ w); topic = "events" }

abbrev paid : Event ℕ
paid = record (event 3 processing 9) { idempotency_token = some (IdempotencyToken.new "t1") }

publish-Carries_example :
    let done = publish codecs transport paid [] in
    ((r : KafkaRecord) × Carries codecs paid r
      × (r.topic ≡ "events")
      × (done.1 ≡ r ∷ [])
      × (done.0 ≡ (if true then ok tt else err (infrastructure_error "Failed to publish event"))))
    ⊎ ((m : String) × (codecs.to_vec paid.payload ≡ unencodable m)
        × (done ≡ (err (infrastructure_error m), [])))
publish-Carries_example = publish-Carries codecs transport paid []
