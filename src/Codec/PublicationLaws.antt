-- ===== src/Codec/PublicationLaws.antt =====
-- About src/core/publication.ts: the three forms of a publication, and what every result holds.
use cross_tab_worker_databus.Base.{
  ℕ, ◌≡◌, refl, ◌⊎◌, false, Option, none, some, [], ◌∷◌, arith, nat_has_eq,
}
use cross_tab_worker_databus.Base.JsString.{Text, text}
use cross_tab_worker_databus.Routing.Topics.{is_empty}
use cross_tab_worker_databus.Codec.Publication.{
  JsValue, JsFields, string, number, object, field, done, get_field, has_own, Publication, nonempty,
  parse_bare, parse_frame, parse_data_bus_publication,
}

-- `{ data, messageId, timestamp }`.
abbrev pub metadata_fields : Publication → Text → ℕ → JsFields
metadata_fields p id at =
    field (text "data") p.payload
      (field (text "messageId") (string id) (field (text "timestamp") (number (some at)) done))

-- The same with the topic.
abbrev pub flat_fields : Publication → Text → ℕ → JsFields
flat_fields p id at = field (text "topic") (string p.topic) (metadata_fields p id at)

-- `{ op: 'publication', publication: ... }`.
abbrev pub envelope : JsFields → JsValue
envelope fields = object (
    field (text "op") (string (text "publication"))
      (field (text "publication") (object fields) done))

-- A publication with a topic, an id that is not empty and a finite timestamp comes back as it was from
-- the canonical envelope, whatever the fallback topic is; from the legacy flat frame without a
-- fallback; and from the metadata envelope without a topic, if the fallback is its topic.
pub parse_data_bus_publication-envelope :
    (topic id : Text) (payload : JsValue) (at : ℕ) (fallback : Option Text)
    → is_empty topic ≡ false
    → is_empty id ≡ false
    → let p : Publication = record {
      topic = topic;
      payload = payload;
      message_id = some id;
      timestamp = some at;
    } in
      (parse_data_bus_publication (envelope (flat_fields p id at)) fallback ≡ some p)
      × (parse_data_bus_publication (object (flat_fields p id at)) none ≡ some p)
      × (parse_data_bus_publication (object (metadata_fields p id at)) (some topic) ≡ some p)
unfolding parse_data_bus_publication parse_frame get_field has_own
parse_data_bus_publication-envelope [] id payload at fallback h k = absurd (ground arith)
parse_data_bus_publication-envelope (c ∷ topic) [] payload at fallback h k = absurd (ground arith)
parse_data_bus_publication-envelope (c ∷ topic) (i ∷ id) payload at fallback h k =
    (refl, refl, refl)

-- Neither an empty topic nor an empty message id comes out of a frame.
pub parse_data_bus_publication-nonempty :
    (value : JsValue) (fallback : Option Text) (p : Publication)
    → parse_data_bus_publication value fallback ≡ some p
    → (is_empty p.topic ≡ false) × ((p.message_id ≡ none) ⊎ (nonempty p.message_id ≡ p.message_id))
unfolding parse_data_bus_publication parse_frame parse_bare
parse_data_bus_publication-nonempty value fallback p h = ground arith
