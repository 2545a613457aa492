-- ===== src/Cluster/Frames.antt =====
-- src/core/types.ts, src/core/cluster.ts and src/utils/metadata.ts: what the tabs post on their
-- channel, and what a runtime does to the outside. `D` is the type of the payloads.
use cross_tab_worker_databus.Base.{
  ℕ, ◌||◌, Option, none, some, List, if◌then◌else◌, is_some, nat_has_eq,
}
use cross_tab_worker_databus.Base.JsString.{Text}
use cross_tab_worker_databus.Types.{ControlAction}

pub record Metadata : Type 0 where
  pub message_id : Option Text
  pub timestamp : Option ℕ

-- `none` where neither field is set.
unfoldable pub publication_metadata : Option Text → Option ℕ → Option Metadata
publication_metadata message_id timestamp =
    if is_some message_id || is_some timestamp
    then some (record { message_id = message_id; timestamp = timestamp })
    else none

pub data Operation : Type 0 where
  route_ack route_migration route_migration_recovery : Operation

module _ (D : Type 0) where
  pub record Item : Type 0 where
    pub payload : D
    pub message_id : Option Text
    pub timestamp : Option ℕ

  -- The fields of a publication in a CONTROL frame; `items` that are not an array are an empty list.
  pub record Publishing : Type 0 where
    pub payload : Option D
    pub message_id : Option Text
    pub timestamp : Option ℕ
    pub items : Option (List Item)

  -- An unknown frame has its type, if that is a string.
  pub data Frame : Type 0 where
    control : Text → ControlAction → Text → Text → Publishing → Frame
    event : Text → D → Option Text → Frame
    registry : Frame
    route_released : Text → Text → Text → ℕ → Frame
    unknown : Option Text → Frame

  -- The calls of the handlers, the posts that the channel takes, the flushes of the writer, and the
  -- closing of the channel, which is queued as a task of its own behind what was posted.
  pub data Effect : Type 0 where
    on_control : ControlAction → Text → Option D → Option Metadata → Effect
    on_publish_batch : Text → List Item → Effect
    on_event : Text → D → Text → Option Text → Effect
    on_unknown_message : Option Text → Effect
    on_suspend on_resume : Effect
    on_diagnostic : Operation → Text → Effect
    posted : Frame → Effect
    flushed closed : Effect

module _ {D : Type 0} where
  abbrev pub no_publishing : Publishing D
  no_publishing = record { payload = none; message_id = none; timestamp = none; items = none }

  -- The fields that `sendControl` spreads into the frame.
  abbrev pub publishing : Option D → Option Metadata → Publishing D
  publishing payload none = record {
    payload = payload;
    message_id = none;
    timestamp = none;
    items = none;
  }
  publishing payload (some metadata) = record {
    payload = payload;
    message_id = metadata.message_id;
    timestamp = metadata.timestamp;
    items = none;
  }
