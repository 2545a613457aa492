-- ===== src/Dedup/Manager.antt =====
-- src/core/dedup-manager.ts: the class `DedupManager`. A clock reading is an argument of each call,
-- `none` where it is not finite; the constructor's two adjacent readings are one. A time to live is an
-- exact fraction, where the source divides doubles. The timer is the interval that it is armed with,
-- and the calls of the trace reporter are a log, oldest first.
use cross_tab_worker_databus.Base.{
  ℕ, ◌+◌, ◌-◌, ◌*◌, min, max, Bool, true, false, not, ◌||◌, Option, none, some, List, [], ◌∷◌, ◌++◌,
  ltb, leb, ◌==◌, if◌then◌else◌, is_some, length, filterb,
}
use cross_tab_worker_databus.Base.JsMap.{JsMap, has, set}
use cross_tab_worker_databus.Base.JsString.{Text, text_has_eq}
use cross_tab_worker_databus.Routing.Topics.{is_empty}

pub record Bounds : Type 0 where
  pub min_ms : ℕ
  pub max_ms : ℕ

pub record Options : Type 0 where
  pub enabled : Bool
  pub max_entries : ℕ
  pub ttl_ms : ℕ
  pub adaptive_bounds : Option Bounds
  pub sweep_ms : Option ℕ

pub data TraceCall : Type 0 where
  suppressed_event : Text → TraceCall
  record_dedup_suppressed record_dedup_accepted : TraceCall

pub record DedupManager : Type 0 where
  pub options : Options
  pub open options use *
  pub seen_message_ids : JsMap Text ℕ
  pub sweep_timer : Option ℕ
  pub window_started_at : ℕ
  pub last_finite_now : ℕ
  pub window_accepted : ℕ
  pub suppressed : ℕ
  pub accepted : ℕ
  pub trace : List TraceCall

abbrev pub adaptive_window_ms : ℕ
adaptive_window_ms = 5_000

-- `QUIET_RATE_PER_MS` is 0.01: one message per this many milliseconds.
abbrev pub quiet_interval_ms : ℕ
quiet_interval_ms = 100

-- A time to live of `num / den` milliseconds.
pub record Ttl : Type 0 where
  pub num : ℕ
  pub den : ℕ

-- `now - timestamp > ttl`, and `timestamp < now - ttl`.
abbrev pub expired : ℕ → Ttl → ℕ → Bool
expired now ttl timestamp = ltb (timestamp * ttl.den + ttl.num) (now * ttl.den)

-- `lastFiniteNow` holds the clock where a reading is not finite.
abbrev pub held : Option ℕ → ℕ → ℕ
held none last = last
held (some now) last = now

unfoldable pub init : Options → Option ℕ → DedupManager
init options reading = record {
  options = options;
  seen_message_ids = [];
  sweep_timer = none;
  window_started_at = held reading 0;
  last_finite_now = held reading 0;
  window_accepted = 0;
  suppressed = 0;
  accepted = 0;
  trace = [];
}

unfoldable pub now_ms : DedupManager → Option ℕ → DedupManager × ℕ
now_ms d reading =
    (record d { last_finite_now = held reading d.last_finite_now }, held reading d.last_finite_now)

-- The fraction that lies between the bounds as far as the rate lies between 0 and the quiet rate.
unfoldable pub adaptive_ttl : Bounds → ℕ → ℕ → Ttl
adaptive_ttl bounds window_accepted elapsed =
    let span = max 1 elapsed in
    record {
      num =
          bounds.max_ms * span
          - (bounds.max_ms - bounds.min_ms) * min span (window_accepted * quiet_interval_ms);
      den = span;
    }

unfoldable pub current_ttl : DedupManager → Option ℕ → DedupManager × Ttl
unfolding now_ms
current_ttl d reading = elim d.adaptive_bounds [
  | none ↦ (d, record { num = d.ttl_ms; den = 1 })
  | some bounds ↦
      let (d', now) = now_ms d reading in
      let elapsed = now - d'.window_started_at in
      if leb adaptive_window_ms elapsed
      then (
        record d' { window_started_at = now; window_accepted = 0 },
        record { num = bounds.max_ms; den = 1 },
      )
      else (d', adaptive_ttl bounds d'.window_accepted elapsed)
]

-- The loop over `seenMessageIds.keys()` that deletes the oldest while the map is over its cap.
unfoldable pub evict : ℕ → JsMap Text ℕ → JsMap Text ℕ
evict max_entries [] = []
evict max_entries (e ∷ m) =
    let rest = evict max_entries m in if leb (length (e ∷ m)) max_entries then e ∷ m else rest

abbrev pub drop_expired : ℕ → Ttl → JsMap Text ℕ → JsMap Text ℕ
drop_expired now ttl = filterb (λ e. not (expired now ttl e.1))

-- The part of `isDuplicate` behind its guard, with the clock and the time to live already read.
unfoldable pub check_and_record : DedupManager → ℕ → Ttl → Text → Text → DedupManager × Bool
check_and_record d now ttl message_id topic =
    let live = drop_expired now ttl d.seen_message_ids in
    if has message_id live
    then (
      record d {
        seen_message_ids = live;
        suppressed = d.suppressed + 1;
        trace = d.trace ++ suppressed_event topic ∷ record_dedup_suppressed ∷ [];
      },
      true,
    )
    else (
      record d {
        seen_message_ids = evict d.max_entries (set message_id now live);
        accepted = d.accepted + 1;
        window_accepted = d.window_accepted + 1;
        trace = d.trace ++ record_dedup_accepted ∷ [];
      },
      false,
    )

-- `reading` is read by `nowMs` first, `again` by `currentTtl`.
unfoldable pub is_duplicate : DedupManager → Option ℕ → Option ℕ → Text → Text → DedupManager × Bool
is_duplicate d reading again message_id topic =
    if not d.enabled || is_empty message_id
    then (d, false)
    else let (d1, now) = now_ms d reading in
      let (d2, ttl) = current_ttl d1 again in check_and_record d2 now ttl message_id topic

-- `!sweepMs` also holds for 0.
unfoldable pub start : DedupManager → DedupManager
start d = if is_some d.sweep_timer || not d.enabled then d else elim d.sweep_ms [
  | none ↦ d
  | some ms ↦ if ms == 0 then d else record d { sweep_timer = some ms }
]

unfoldable pub stop : DedupManager → DedupManager
stop d = record d { sweep_timer = none }

unfoldable pub prune_expired : DedupManager → Option ℕ → Option ℕ → DedupManager
prune_expired d reading again =
    let (d1, now) = now_ms d reading in
    let (d2, ttl) = current_ttl d1 again in
    record d2 { seen_message_ids = drop_expired now ttl d2.seen_message_ids }

pub record Stats : Type 0 where
  pub enabled : Bool
  pub tracked : ℕ
  pub suppressed : ℕ
  pub accepted : ℕ
  pub ttl : Option Ttl

unfoldable pub get_stats : DedupManager → Option ℕ → DedupManager × Stats
get_stats d reading =
    let (d', ttl) = current_ttl d reading in
    (
      d',
      record {
        enabled = d.enabled;
        tracked = length d.seen_message_ids;
        suppressed = d.suppressed;
        accepted = d.accepted;
        ttl = if is_some d.adaptive_bounds then some ttl else none;
      },
    )

unfoldable pub reset : DedupManager → Option ℕ → DedupManager
reset d reading =
    let (d', now) = now_ms d reading in
    record d' {
      seen_message_ids = [];
      suppressed = 0;
      accepted = 0;
      window_started_at = now;
      window_accepted = 0;
    }
