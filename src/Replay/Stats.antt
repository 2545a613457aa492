-- ===== src/Replay/Stats.antt =====
-- src/core/replay-manager.ts: `getStats`, with the estimate of a payload's size as a parameter.
use cross_tab_worker_databus.Base.{
  ℕ, ◌+◌, Bool, Option, none, some, List, [], ◌∷◌, length, nat_has_eq,
}
use cross_tab_worker_databus.Base.JsMap.{JsMap}
use cross_tab_worker_databus.Base.JsString.{Text}
use cross_tab_worker_databus.Types.{Message}
use cross_tab_worker_databus.Replay.Manager.{ReplayManager}

pub record Stats : Type 0 where
  pub enabled : Bool
  pub topics : ℕ
  pub messages : ℕ
  pub bytes : ℕ

module _ {D : Type 0} (approximate_payload_bytes : D → ℕ) where
  -- The loop over the messages of a buffer.
  abbrev pub buffer_bytes : List (Message D) → ℕ
  buffer_bytes [] = 0
  buffer_bytes (message ∷ buffer) = approximate_payload_bytes message.payload + buffer_bytes buffer

  -- The loop over the buffers.
  abbrev pub count_buffers : JsMap Text (List (Message D)) → ℕ × ℕ
  count_buffers [] = (0, 0)
  count_buffers ((topic, buffer) ∷ buffers) =
      let (messages, bytes) = count_buffers buffers in
      (length buffer + messages, buffer_bytes buffer + bytes)

  abbrev pub buffers_or_empty :
      Option (JsMap Text (List (Message D))) → JsMap Text (List (Message D))
  buffers_or_empty none = []
  buffers_or_empty (some buffers) = buffers

  unfoldable pub get_stats : ReplayManager D → Stats
  get_stats s =
      let (messages, bytes) = count_buffers (buffers_or_empty s.buffers) in
      record {
        enabled = s.enabled;
        topics = length (buffers_or_empty s.buffers);
        messages = messages;
        bytes = bytes;
      }
