-- ===== src/Object/EventType.antt =====
-- outbox-core/src/object.rs, `EventType`.
use oxide_outbox.Prelude.{String}

pub record EventType : Type 0 where
  pub text : String

abbrev pub new : String → EventType
new event_type = record { text = event_type }

abbrev pub load : String → EventType
load value = record { text = value }

abbrev pub as_str : EventType → String
as_str t = t.text

-- `Display::fmt` writes the text as it is.
abbrev pub to_string : EventType → String
to_string t = t.text
