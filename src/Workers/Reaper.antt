-- ===== src/Workers/Reaper.antt =====
-- src/workers/port-reaper.ts: the class `PortReaper`. A port is a number, a time a whole number of
-- milliseconds. A target is given by which of its steps throw, and what is called on the targets is
-- kept in order. A timeout is three times a whole interval, so that dividing it by three is exact.
use cross_tab_worker_databus.Base.{
  ℕ, ◌+◌, ◌-◌, ◌*◌, ◌/◌, min, Bool, true, false, not, ◌&&◌, Option, none, some, List, [], ◌∷◌, ◌++◌,
  ltb, ◌==◌, if◌then◌else◌, is_some, length,
}
use cross_tab_worker_databus.Base.{nat_has_eq}
use cross_tab_worker_databus.Base.JsMap.{JsMap, get, has, set, delete}

abbrev pub default_heartbeat_interval_ms : ℕ
default_heartbeat_interval_ms = 10_000

abbrev pub default_session_timeout_multiplier : ℕ
default_session_timeout_multiplier = 3

-- A port with the timeout `infinite` is never silent.
pub data Timeout : Type 0 where
  finite : ℕ → Timeout
  infinite : Timeout

abbrev pub default_session_timeout_ms : Timeout
default_session_timeout_ms =
    finite (default_heartbeat_interval_ms * default_session_timeout_multiplier)

-- The number that a port's INIT brings.
pub data HeartbeatInterval : Type 0 where
  nan negative infinity : HeartbeatInterval
  amount : ℕ → HeartbeatInterval

pub record ReapTarget : Type 0 where
  pub notify_throws : Bool
  pub close_throws : Bool
  pub stop_throws : Bool

pub data Call : Type 0 where
  notify close stop : ℕ → Call

pub record PortReaper : Type 0 where
  pub targets : JsMap ℕ ReapTarget
  pub last_seen_at : JsMap ℕ ℕ
  pub session_timeout_ms : JsMap ℕ Timeout
  -- The delay that the interval was set with.
  pub handle : Option ℕ
  pub interval_ms : ℕ
  -- The intervals that were set and not cleared.
  pub running : ℕ
  pub calls : List Call

abbrev pub init : PortReaper
init = record {
  targets = [];
  last_seen_at = [];
  session_timeout_ms = [];
  handle = none;
  interval_ms = default_heartbeat_interval_ms;
  running = 0;
  calls = [];
}

-- `Math.min(minHeartbeat, timeout / DEFAULT_SESSION_TIMEOUT_MULTIPLIER)`.
abbrev pub min_with : ℕ → Timeout → ℕ
min_with n (finite t) = min n (t / default_session_timeout_multiplier)
min_with n infinite = n

abbrev pub compute_min_from : ℕ → JsMap ℕ Timeout → ℕ
compute_min_from n [] = n
compute_min_from n (e ∷ timeouts) = compute_min_from (min_with n e.1) timeouts

abbrev pub compute_min_heartbeat : PortReaper → ℕ
compute_min_heartbeat r = compute_min_from default_heartbeat_interval_ms r.session_timeout_ms

-- `if (this.handle !== null) this.clearTimer(this.handle)`.
abbrev pub cleared : PortReaper → ℕ
cleared r = if is_some r.handle then r.running - 1 else r.running

unfoldable pub schedule : PortReaper → PortReaper
schedule r =
    if length r.session_timeout_ms == 0
    then record r { handle = none; running = cleared r }
    else let min_heartbeat = compute_min_heartbeat r in
      if is_some r.handle && (r.interval_ms == min_heartbeat) then r else record r {
        interval_ms = min_heartbeat;
        handle = some min_heartbeat;
        running = cleared r + 1;
      }

unfoldable pub register : PortReaper → ℕ → ReapTarget → ℕ → PortReaper
register r port target now = schedule (record r {
  targets = set port target r.targets;
  last_seen_at = set port now r.last_seen_at;
  session_timeout_ms = set port default_session_timeout_ms r.session_timeout_ms;
})

unfoldable pub touch : PortReaper → ℕ → ℕ → PortReaper
touch r port now =
    if not (has port r.targets) then r else record r { last_seen_at = set port now r.last_seen_at }

abbrev pub safe_timeout : HeartbeatInterval → Timeout
safe_timeout infinity = infinite
safe_timeout nan = default_session_timeout_ms
safe_timeout negative = default_session_timeout_ms
safe_timeout (amount n) =
    if ltb 0 n then finite (n * default_session_timeout_multiplier) else default_session_timeout_ms

unfoldable pub set_timeout : PortReaper → ℕ → HeartbeatInterval → PortReaper
set_timeout r port interval =
    if not (has port r.targets)
    then r
    else schedule
        (record r { session_timeout_ms = set port (safe_timeout interval) r.session_timeout_ms })

abbrev pub forget : ℕ → PortReaper → PortReaper
forget port r = record r {
  targets = delete port r.targets;
  last_seen_at = delete port r.last_seen_at;
  session_timeout_ms = delete port r.session_timeout_ms;
}

unfoldable pub remove : PortReaper → ℕ → PortReaper
remove r port = if not (has port r.targets) then r else schedule (forget port r)

abbrev pub close_and_stop : ℕ → ReapTarget → List Call
close_and_stop port target =
    if target.close_throws then close port ∷ [] else close port ∷ stop port ∷ []

abbrev pub dispose_all : JsMap ℕ ReapTarget → List Call
dispose_all [] = []
dispose_all ((port, target) ∷ targets) = close_and_stop port target ++ dispose_all targets

unfoldable pub dispose : PortReaper → PortReaper
dispose r = record r {
  handle = none;
  running = cleared r;
  calls = r.calls ++ dispose_all r.targets;
  targets = [];
  last_seen_at = [];
  session_timeout_ms = [];
}

abbrev pub or_zero : Option ℕ → ℕ
or_zero none = 0
or_zero (some n) = n

abbrev pub or_default : Option Timeout → Timeout
or_default none = default_session_timeout_ms
or_default (some t) = t

-- `now - lastSeen > timeout`; a clock that ran backwards is no silence.
abbrev pub exceeds : ℕ → ℕ → Timeout → Bool
exceeds now last_seen (finite t) = ltb t (now - last_seen)
exceeds now last_seen infinite = false

abbrev pub is_silent : PortReaper → ℕ → ℕ → Bool
is_silent r now port =
    exceeds now (or_zero (get port r.last_seen_at)) (or_default (get port r.session_timeout_ms))

-- The body of the try block: a step that throws skips those after it.
abbrev pub teardown : ℕ → ReapTarget → List Call
teardown port target =
    if target.notify_throws then notify port ∷ [] else notify port ∷ close_and_stop port target

-- The loop over the snapshot, with the flag `reapedAny`.
unfoldable pub reap_loop : ℕ → JsMap ℕ ReapTarget → PortReaper → Bool → PortReaper × Bool
reap_loop now [] r reaped_any = (r, reaped_any)
reap_loop now ((port, target) ∷ rest) r reaped_any = elim (is_silent r now port) [
  | false ↦ reap_loop now rest r reaped_any
  | true ↦
      reap_loop now rest (record (forget port r) { calls = r.calls ++ teardown port target }) true
]

unfoldable pub reap : PortReaper → ℕ → PortReaper
reap r now =
    let (r', reaped_any) = reap_loop now r.targets r false in if reaped_any then schedule r' else r'
