-- ===== src/Codec/Samples.antt =====
-- A small JSON, and envelopes that a checkpoint keeps and loses.
use rust_agent_framework.Common.{
  ℕ, String, Option, none, some, List, [], ◌∷◌, ◌≡◌, refl, eq-false→≢, ok,
}
use rust_agent_framework.Envelope.{Envelope, type_tag, new_envelope}
use rust_agent_framework.Codec.{
  Serde, chat, chats, json, Content, to_serializable, into_message_envelope,
}
use rust_agent_framework.Codec.RoundTrip.{to_serializable_loses}

-- A JSON value is a list of texts here, a message one of two texts, and any other payload a number.
abbrev the_text : List String → Option String
the_text (s ∷ []) = some s
the_text _ = none

abbrev the_message : List String → Option String
the_message (tag ∷ s ∷ []) = some s
the_message _ = none

abbrev pub sample_serde : Serde
sample_serde = record {
  Value = List String;
  ChatMessage = String;
  Other = ℕ;
  null = [];
  string = λ s. s ∷ [];
  as_string = the_text;
  print = λ v. "json";
  chat_to_value = λ m. some ("message" ∷ m ∷ []);
  chats_to_value = λ ms. some ms;
  chat_from_value = the_message;
  chats_from_value = λ v. some v;
  as_string-string = λ s. refl;
}

abbrev pub chat_envelope : Envelope (Content sample_serde) (List String)
chat_envelope = new_envelope "m1" 7 "planner" (chat "hello") (type_tag "ChatMessage")

abbrev initial_envelope : Envelope (Content sample_serde) (List String)
initial_envelope =
    new_envelope "m2" 8 "planner" (chats ("hello" ∷ "again" ∷ [])) (type_tag "initial")

to_serializable_loses_example :
    into_message_envelope sample_serde (to_serializable sample_serde initial_envelope)
    ≡ ok (record initial_envelope { content = json ("\"initial\"" ∷ []) })
unfolding new_envelope type_tag
to_serializable_loses_example = to_serializable_loses sample_serde initial_envelope (
  eq-false→≢ "initial" "ChatMessage" refl,
  eq-false→≢ "initial" "Vec<ChatMessage>" refl,
  eq-false→≢ "initial" "String" refl,
)
