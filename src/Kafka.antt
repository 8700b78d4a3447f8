-- ===== src/Kafka.antt =====
-- outbox-kafka/src/lib.rs: the transport. The producer, the serializer of `serde_json` and the text
-- codecs are parameters.
pub mod Publish
use oxide_outbox.Prelude.{
  ℕ, String, Bool, true, false, Option, none, some, List, [], ◌∷◌, ◌++◌, if◌then◌else◌,
}
use oxide_outbox.Exec.{Exec, infrastructure_error, expect, pure, raise, effect, ◌>>=◌, ◌>>◌}
use oxide_outbox.Object.EventId.{as_uuid}
use oxide_outbox.Object.IdempotencyToken.{IdempotencyToken}
use oxide_outbox.Object.IdempotencyToken
use oxide_outbox.Object.EventType
use oxide_outbox.Object.Payload
use oxide_outbox.Object.Payload.{as_value}
use oxide_outbox.Runtime.{Timestamp}
use oxide_outbox.Model.{Event}
use oxide_outbox.Traits.{Transport}

-- A `FutureRecord`; a header's text stands for its bytes.
pub record KafkaRecord : Type 0 where
  pub topic : String
  pub payload : List ℕ
  pub key : List ℕ
  pub headers : List (String × String)

-- The bytes of `serde_json::to_vec`, or the text of its error.
pub data Encoded : Type 0 where
  bytes : List ℕ → Encoded
  unencodable : String → Encoded

-- `serde_json::to_vec`, `KafkaKeyExtractable::kafka_key`, `Uuid::to_string` and
-- `OffsetDateTime::to_string`.
pub record KafkaCodecs (P : Type 0) : Type 0 where
  pub to_vec : Payload.Payload P → Encoded
  pub kafka_key : P → List ℕ
  pub uuid_text : ℕ → String
  pub time_text : Timestamp → String

-- `KafkaTransport`, with `FutureProducer::send` as whether the broker took the record.
pub record KafkaTransport (W : Type 0) : Type 0 where
  pub send : KafkaRecord → W → Bool × W
  pub topic : String

-- The header of an idempotency token, where there is one.
abbrev pub token_header : Option IdempotencyToken → List (String × String)
token_header none = []
token_header (some token) = ("idempotency_token", IdempotencyToken.as_str token) ∷ []

abbrev pub headers_of : {P : Type 0} → KafkaCodecs P → Event P → List (String × String)
headers_of k e =
    ("event_id", k.uuid_text (as_uuid e.id))
    ∷ ("event_type", EventType.as_str e.event_type)
    ∷ ("created_at", k.time_text e.created_at)
    ∷ token_header e.idempotency_token

-- `map_err(|e| InfrastructureError(e.to_string()))?` on the bytes of the payload.
abbrev pub encoded : {W : Type 0} → Encoded → Exec W (List ℕ)
encoded (bytes b) = pure b
encoded (unencodable message) = raise (infrastructure_error message)

-- `KafkaTransport::new`: `create` is `ClientConfig::create`, the producer where there is one; the text
-- of the panic goes on with the error.
abbrev pub new :
    {W : Type 0} → String → Option (KafkaRecord → W → Bool × W) → Exec W (KafkaTransport W)
new topic create = expect "Failed to create Kafka producer" create >>= λ producer.
    pure (record { send = producer; topic = topic })

module _ {P W : Type 0} where
  pub publish : KafkaCodecs P → KafkaTransport W → Event P → Exec W (Unit {0})
  publish k t e = do
    payload_bytes ← encoded (k.to_vec e.payload)
    delivered ← effect (
        t.send (record {
          topic = t.topic;
          payload = payload_bytes;
          key = k.kafka_key (as_value e.payload);
          headers = headers_of k e;
        }))
    if delivered then pure tt else raise (infrastructure_error "Failed to publish event")

  abbrev pub kafka_transport : KafkaCodecs P → KafkaTransport W → Transport P W
  kafka_transport k t = record { publish = publish k t }
