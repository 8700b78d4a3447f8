-- ===== src/Kafka/Publish.antt =====
-- What a consumer can read from the records of outbox-kafka/src/lib.rs.
use text.Mathlib.Text.{◌==◌}
use oxide_outbox.Prelude.{
  ℕ, String, ◌≡◌, refl, inl, inr, ◌⊎◌, Option, none, some, List, [], ◌∷◌, arith, Bool-cases,
  if◌then◌else◌,
}
use mathlib.Core.Option
use oxide_outbox.Exec.{ok, err, infrastructure_error}
use oxide_outbox.Object.EventId.{as_uuid}
use oxide_outbox.Object.EventType
use oxide_outbox.Object.IdempotencyToken
use oxide_outbox.Object.Payload.{as_value}
use oxide_outbox.Model.{Event}
use oxide_outbox.Kafka.{
  KafkaRecord, KafkaCodecs, KafkaTransport, Encoded, bytes, unencodable, headers_of, publish,
}

-- The value of the first header of a name.
abbrev pub header : String → List (String × String) → Option String
header name [] = none
header name ((n, v) ∷ hs) = if n == name then some v else header name hs

-- A record that carries an event: its payload's bytes, under the payload's key, with the event's
-- identifier, type and idempotency token, if it has one, as headers.
pub record Carries {P : Type 0} (k : KafkaCodecs P) (e : Event P) (r : KafkaRecord) : Type 0 where
  pub in_payload : k.to_vec e.payload ≡ bytes r.payload
  pub in_key : r.key ≡ k.kafka_key (as_value e.payload)
  pub in_id : header "event_id" r.headers ≡ some (k.uuid_text (as_uuid e.id))
  pub in_type : header "event_type" r.headers ≡ some (EventType.as_str e.event_type)
  pub in_time : header "created_at" r.headers ≡ some (k.time_text e.created_at)
  pub in_token :
      header "idempotency_token" r.headers ≡ Option.map IdempotencyToken.as_str e.idempotency_token

Encoded-cases :
    (x : Encoded) → ((b : List ℕ) × (x ≡ bytes b)) ⊎ ((m : String) × (x ≡ unencodable m))
Encoded-cases (bytes b) = inl (b, refl)
Encoded-cases (unencodable m) = inr (m, refl)

module _ {P W : Type 0} (k : KafkaCodecs P) (t : KafkaTransport W) where
  abbrev pub record_of : Event P → List ℕ → KafkaRecord
  record_of e b = record {
    topic = t.topic;
    payload = b;
    key = k.kafka_key (as_value e.payload);
    headers = headers_of k e;
  }

  record_of-Carries :
      (e : Event P) (b : List ℕ) → k.to_vec e.payload ≡ bytes b → Carries k e (record_of e b)
  record_of-Carries e b h = record {
    in_payload = h;
    in_key = refl;
    in_id = refl;
    in_type = refl;
    in_time = refl;
    in_token = ground arith;
  }

  -- A publish hands over exactly one record, to the configured topic, that carries the event, and
  -- returns `Ok` just when the broker took it and `InfrastructureError` when not; or the payload
  -- cannot be encoded, nothing is sent, and it returns `InfrastructureError`.
  pub publish-Carries :
      (e : Event P) (w : W)
      → let done = publish k t e w in
        ((r : KafkaRecord) × Carries k e r
          × (r.topic ≡ t.topic)
          × (done.1 ≡ (t.send r w).1)
          × (done.0 ≡ (
              if (t.send r w).0
              then ok tt
              else err (infrastructure_error "Failed to publish event"))))
        ⊎ ((m : String) × (k.to_vec e.payload ≡ unencodable m)
            × (done ≡ (err (infrastructure_error m), w)))
  unfolding publish
  publish-Carries e w = elim (Encoded-cases (k.to_vec e.payload)) [
    | inl (b, q) ↦
        let r = record_of e b in
        inl (
          r,
          record_of-Carries e b q,
          refl,
          elim (Bool-cases (t.send r w).0) [ inl y ↦ rw (q, y) refl | inr n ↦ rw (q, n) refl ],
          elim (Bool-cases (t.send r w).0) [ inl y ↦ rw (q, y) refl | inr n ↦ rw (q, n) refl ],
        )
    | inr (m, q) ↦ inr (m, q, rw q refl)
  ]
