-- ===== src/Types.antt =====
-- src/utils/constants.ts and src/core/types.ts: the enumerations and the records that the tabs
-- exchange. Times are whole, non-negative milliseconds; counts are natural numbers; a number that a
-- peer's stored record may corrupt is a `Number`.
use cross_tab_worker_databus.Base.{ℕ, Bool, Option}
use cross_tab_worker_databus.Base.JsString.{Text}
use cross_tab_worker_databus.Base.Number.{Number}

pub data WorkerStatus : Type 0 where
  connecting connected disconnected error : WorkerStatus

pub data WorkerRole : Type 0 where
  active standby : WorkerRole

pub data TabVisibility : Type 0 where
  visible hidden : TabVisibility

pub data ControlAction : Type 0 where
  subscribe unsubscribe publish : ControlAction

pub data PruneStrategy : Type 0 where
  count age both : PruneStrategy

module _ (N : Number) where
  open N use {F}

  pub record ThroughputSample : Type 0 where
    pub window_ms : F
    pub message_count : F
    pub byte_count : F
    pub overrun_ms : F
    pub sampled_at : F

  pub record LoadWeightingOptions : Type 0 where
    pub message_rate_weight : Option F
    pub byte_rate_weight : Option F
    pub schedule_lag_weight : Option F

  pub record WorkerRecord : Type 0 where
    pub protocol_version : Option ℕ
    pub worker_id : Text
    pub tab_id : Text
    pub load : F
    pub throughput : Option ThroughputSample
    pub role : WorkerRole
    pub status : WorkerStatus
    pub visibility_state : TabVisibility
    pub heartbeat_at : ℕ
    pub registered_at : ℕ

pub record WorkerRoute : Type 0 where
  pub topic_key : Text
  pub worker_id : Text
  pub tab_id : Text
  pub updated_at : ℕ
  pub generation : ℕ
  pub handoff_from_worker_id : Option Text
  pub confirmed_at : Option ℕ

pub record TopicSubscriberRecord : Type 0 where
  pub tab_id : Text
  pub worker_id : Option Text
  pub updated_at : ℕ

-- A publication as the handlers see it.
pub record Message {ℓ} (D : Type ℓ) : Type ℓ where
  pub topic : Text
  pub payload : D
  pub message_id : Option Text
  pub timestamp : Option ℕ
  pub replayed : Bool
  pub origin_tab_id : Option Text
