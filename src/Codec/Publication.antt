-- ===== src/Codec/Publication.antt =====
-- src/core/publication.ts: `parseDataBusPublication`, on the values that JSON and structured clone
-- carry. A number is `none` if it is not finite, and else a whole one; an array is an object.
use cross_tab_worker_databus.Base.{
  ℕ, Bool, false, not, ◌&&◌, ◌||◌, Option, none, some, if◌then◌else◌, is_some, nat_has_eq,
}
use cross_tab_worker_databus.Base.JsString.{Text, text, eqb}
use cross_tab_worker_databus.Routing.Topics.{is_empty}

mutual
  pub data JsValue : Type 0 where
    undefined null other : JsValue
    boolean : Bool → JsValue
    number : Option ℕ → JsValue
    string : Text → JsValue
    object : JsFields → JsValue

  -- An object's own properties in their order.
  pub data JsFields : Type 0 where
    done : JsFields
    field : Text → JsValue → JsFields → JsFields

-- `object[name]`.
unfoldable pub get_field : Text → JsFields → JsValue
get_field name done = undefined
get_field name (field key value fields) = if eqb key name then value else get_field name fields

-- `Object.prototype.hasOwnProperty.call(object, name)`.
unfoldable pub has_own : Text → JsFields → Bool
has_own name done = false
has_own name (field key value fields) = eqb key name || has_own name fields

abbrev pub as_object : JsValue → Option JsFields
as_object undefined = none
as_object null = none
as_object other = none
as_object (boolean b) = none
as_object (number n) = none
as_object (string s) = none
as_object (object fields) = some fields

abbrev pub as_string : JsValue → Option Text
as_string undefined = none
as_string null = none
as_string other = none
as_string (boolean b) = none
as_string (number n) = none
as_string (string s) = some s
as_string (object fields) = none

abbrev pub as_number : JsValue → Option (Option ℕ)
as_number undefined = none
as_number null = none
as_number other = none
as_number (boolean b) = none
as_number (number n) = some n
as_number (string s) = none
as_number (object fields) = none

pub record Publication : Type 0 where
  pub topic : Text
  pub payload : JsValue
  pub message_id : Option Text
  pub timestamp : Option ℕ

abbrev pub or_fields : Option JsFields → JsFields → JsFields
or_fields none frame = frame
or_fields (some nested) frame = nested

abbrev pub or_text : Option Text → Option Text → Option Text
or_text none fallback = fallback
or_text (some t) fallback = some t

-- A string that is not empty.
abbrev pub nonempty : Option Text → Option Text
nonempty none = none
nonempty (some s) = if is_empty s then none else some s

abbrev pub finite : Option (Option ℕ) → Option ℕ
finite none = none
finite (some n) = n

-- A frame that is no object.
unfoldable pub parse_bare : JsValue → Option Text → Option Publication
parse_bare value fallback_topic = elim (nonempty fallback_topic) [
  | none ↦ none
  | some topic ↦
      some (record { topic = topic; payload = value; message_id = none; timestamp = none })
]

unfoldable pub parse_frame : JsFields → Option Text → Option Publication
parse_frame frame fallback_topic =
    let nested = as_object (get_field (text "publication") frame) in
    let publication = or_fields nested frame in
    let id = as_string (get_field (text "messageId") publication) in
    let at = as_number (get_field (text "timestamp") publication) in
    let has_metadata_envelope =
      is_some fallback_topic && has_own (text "data") publication && (is_some id || is_some at) in
    elim (nonempty (or_text (as_string (get_field (text "topic") publication)) fallback_topic)) [
      | none ↦ none
      | some topic ↦ some (record {
        topic = topic;
        payload =
            if is_some nested || not (is_some fallback_topic) || has_metadata_envelope
            then get_field (text "data") publication
            else object frame;
        message_id = nonempty id;
        timestamp = finite at;
      })
    ]

unfoldable pub parse_data_bus_publication : JsValue → Option Text → Option Publication
parse_data_bus_publication value fallback_topic = elim (as_object value) [
  | none ↦ parse_bare value fallback_topic
  | some frame ↦ parse_frame frame fallback_topic
]
