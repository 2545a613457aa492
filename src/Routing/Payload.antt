-- ===== src/Routing/Payload.antt =====
-- src/core/routing.ts: the estimate of a payload's size. A payload is a value in a heap of objects,
-- which may be cyclic; of a buffer or a view the heap has the length in bytes, of an array its
-- elements, and of another object what `Object.values` gives.
use cross_tab_worker_databus.Base.{ℕ, zero, suc, ◌+◌, List, [], ◌∷◌, length, nat_has_eq}
use cross_tab_worker_databus.Base.JsString.{Text}

-- What is no object: `null` and `undefined`, booleans, numbers and bigints, strings, and symbols and
-- functions. An object is the place that it has in the heap.
pub data Payload : Type 0 where
  nothing boolean number opaque : Payload
  string : Text → Payload
  object : ℕ → Payload

pub data Node : Type 0 where
  binary : ℕ → Node
  array plain : List Payload → Node

abbrev pub Heap : Type 0
Heap = ℕ → Node

abbrev pub max_payload_depth : ℕ
max_payload_depth = 6

-- The loops over the elements and the values.
abbrev pub sum_of : (Payload → ℕ) → List Payload → ℕ
sum_of size [] = 0
sum_of size (item ∷ items) = size item + sum_of size items

abbrev pub node_bytes : (Payload → ℕ) → Node → ℕ
node_bytes size (binary byte_length) = byte_length
node_bytes size (array items) = 8 + sum_of size items
node_bytes size (plain values) = sum_of size values

-- The switch on the type, with what an object counts for.
abbrev pub value_bytes : (ℕ → ℕ) → Payload → ℕ
value_bytes of_object nothing = 0
value_bytes of_object boolean = 4
value_bytes of_object number = 8
value_bytes of_object opaque = 0
value_bytes of_object (string s) = length s
value_bytes of_object (object place) = of_object place

-- The recursion, on the levels that are left below the cap.
unfoldable pub estimate_payload_bytes : ℕ → Heap → Payload → ℕ
estimate_payload_bytes zero heap payload = value_bytes (λ place. 0) payload
estimate_payload_bytes (suc left) heap payload =
    value_bytes (λ place. node_bytes (estimate_payload_bytes left heap) (heap place)) payload

abbrev pub approximate_payload_bytes : Heap → Payload → ℕ
approximate_payload_bytes = estimate_payload_bytes max_payload_depth
