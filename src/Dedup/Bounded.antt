-- ===== src/Dedup/Bounded.antt =====
-- About src/core/dedup-manager.ts: what every call keeps, and what a verdict depends on.
use cross_tab_worker_databus.Base.{
  ℕ, ◌≤◌, ◌≡◌, refl, ap, ◌∙◌, inl, inr, not, Option, List, [], ◌∷◌, arith, Option-cases, length,
  length-filterb-le,
}
use cross_tab_worker_databus.Base.JsMap.{JsMap, get, UniqueKeys, UniqueKeys-filterb}
use cross_tab_worker_databus.Base.JsString.{Text, text_has_eq}
use cross_tab_worker_databus.Dedup.Manager.{
  Options, DedupManager, Ttl, init, now_ms, current_ttl, check_and_record, is_duplicate, start,
  stop, prune_expired, get_stats, reset, expired, drop_expired,
}
use cross_tab_worker_databus.Dedup.Entries.{evict-set-UniqueKeys, length-evict}

-- One entry for a message id, and never more of them than the cap.
pub record IsValid (d : DedupManager) : Type 0 where
  pub unique : UniqueKeys d.seen_message_ids
  pub bounded : length d.seen_message_ids ≤ d.max_entries

-- A call of the manager's public methods, or a firing of its sweep, with the readings of the clock.
pub data Call : Type 0 where
  is_duplicate_call : Option ℕ → Option ℕ → Text → Text → Call
  sweep : Option ℕ → Option ℕ → Call
  get_stats_call reset_call : Option ℕ → Call
  start_call stop_call : Call

unfoldable pub step : DedupManager → Call → DedupManager
step d (is_duplicate_call reading again id topic) = (is_duplicate d reading again id topic).0
step d (sweep reading again) = prune_expired d reading again
step d (get_stats_call reading) = (get_stats d reading).0
step d (reset_call reading) = reset d reading
step d start_call = start d
step d stop_call = stop d

pub run : DedupManager → List Call → DedupManager
run d [] = d
run d (c ∷ cs) = run (step d c) cs

-- Reading the clock and the time to live leaves the entries and the options alone.
pub now_ms_entries :
    (d : DedupManager) (reading : Option ℕ)
    → ((now_ms d reading).0.seen_message_ids ≡ d.seen_message_ids)
      × ((now_ms d reading).0.options ≡ d.options)
unfolding now_ms
now_ms_entries d reading = (refl, refl)

pub current_ttl_entries :
    (d : DedupManager) (reading : Option ℕ)
    → ((current_ttl d reading).0.seen_message_ids ≡ d.seen_message_ids)
      × ((current_ttl d reading).0.options ≡ d.options)
unfolding current_ttl
current_ttl_entries d reading = ground arith

current_ttl-IsValid :
    (d : DedupManager) (reading : Option ℕ) → IsValid d → IsValid (current_ttl d reading).0
unfolding current_ttl
current_ttl-IsValid d reading v = ground arith

now_ms-IsValid : (d : DedupManager) (reading : Option ℕ) → IsValid d → IsValid (now_ms d reading).0
unfolding now_ms
now_ms-IsValid d reading v = record { unique = v.unique; bounded = v.bounded }

drop_expired-le :
    (now : ℕ) (ttl : Ttl) (m : JsMap Text ℕ) → length (drop_expired now ttl m) ≤ length m
drop_expired-le now ttl m = length-filterb-le (λ e. not (expired now ttl e.1)) m

check_and_record-IsValid :
    (d : DedupManager) (now : ℕ) (ttl : Ttl) (id topic : Text)
    → IsValid d
    → IsValid (check_and_record d now ttl id topic).0
unfolding check_and_record
check_and_record-IsValid d now ttl id topic v =
    let live = drop_expired now ttl d.seen_message_ids in
    let u = UniqueKeys-filterb (λ e. not (expired now ttl e.1)) d.seen_message_ids v.unique in
    elim (Option-cases (get id live)) [
      | inl absent ↦
          rw (absent, check_and_record)
            (record {
              unique = evict-set-UniqueKeys d.max_entries now id live absent u;
              bounded = length-evict d.max_entries _;
            })
      | inr (t, present) ↦
          rw (present, check_and_record)
            (record {
              unique = u;
              bounded = omega (arith, v.bounded, drop_expired-le now ttl d.seen_message_ids);
            })
    ]

is_duplicate-IsValid :
    (d : DedupManager) (reading again : Option ℕ) (id topic : Text)
    → IsValid d
    → IsValid (is_duplicate d reading again id topic).0
unfolding is_duplicate
is_duplicate-IsValid d reading again id topic v = ground (
  arith,
  check_and_record-IsValid (current_ttl (now_ms d reading).0 again).0 (now_ms d reading).1
      (current_ttl (now_ms d reading).0 again).1 id topic
      (current_ttl-IsValid (now_ms d reading).0 again (now_ms-IsValid d reading v)),
)

prune_expired-IsValid :
    (d : DedupManager) (reading again : Option ℕ)
    → IsValid d
    → IsValid (prune_expired d reading again)
unfolding prune_expired
prune_expired-IsValid d reading again v =
    let w = current_ttl-IsValid (now_ms d reading).0 again (now_ms-IsValid d reading v) in
    let d2 = (current_ttl (now_ms d reading).0 again).0 in
    record {
      unique = UniqueKeys-filterb _ d2.seen_message_ids w.unique;
      bounded = omega (
        arith,
        w.bounded,
        drop_expired-le (now_ms d reading).1 (current_ttl (now_ms d reading).0 again).1
            d2.seen_message_ids,
      );
    }

-- Every call and every sweep keeps one entry for a message id, and no more of them than the cap.
pub step-IsValid : (d : DedupManager) (c : Call) → IsValid d → IsValid (step d c)
unfolding step get_stats reset start stop
step-IsValid d (is_duplicate_call reading again id topic) v =
    is_duplicate-IsValid d reading again id topic v
step-IsValid d (sweep reading again) v = prune_expired-IsValid d reading again v
step-IsValid d (get_stats_call reading) v = current_ttl-IsValid d reading v
step-IsValid d (reset_call reading) v = record { unique = tt; bounded = omega arith }
step-IsValid d start_call v = ground arith
step-IsValid d stop_call v = record { unique = v.unique; bounded = v.bounded }

init-IsValid : (options : Options) (reading : Option ℕ) → IsValid (init options reading)
unfolding init
init-IsValid options reading = record { unique = tt; bounded = omega arith }

pub check_and_record_options :
    (d : DedupManager) (now : ℕ) (ttl : Ttl) (id topic : Text)
    → (check_and_record d now ttl id topic).0.options ≡ d.options
unfolding check_and_record
check_and_record_options d now ttl id topic = ground arith

pub step_options : (d : DedupManager) (c : Call) → (step d c).options ≡ d.options
unfolding step is_duplicate prune_expired get_stats reset start stop now_ms
step_options d (is_duplicate_call reading again id topic) = ground (
  arith,
  check_and_record_options (current_ttl (now_ms d reading).0 again).0 (now_ms d reading).1
      (current_ttl (now_ms d reading).0 again).1 id topic,
  current_ttl_entries (now_ms d reading).0 again,
)
step_options d (sweep reading again) = (current_ttl_entries (now_ms d reading).0 again).1
step_options d (get_stats_call reading) = (current_ttl_entries d reading).1
step_options d (reset_call reading) = refl
step_options d start_call = ground arith
step_options d stop_call = refl

run_options : (d : DedupManager) (cs : List Call) → (run d cs).options ≡ d.options
unfolding run
run_options d [] = refl
run_options d (c ∷ cs) = run_options (step d c) cs ∙ step_options d c

run-IsValid : (d : DedupManager) (cs : List Call) → IsValid d → IsValid (run d cs)
unfolding run
run-IsValid d [] v = v
run-IsValid d (c ∷ cs) v = run-IsValid (step d c) cs (step-IsValid d c v)

-- Whatever is called and whatever the clock reads, a manager never remembers more message ids than
-- its options allow, and never one of them twice.
pub run-init-bounded :
    (options : Options) (reading : Option ℕ) (cs : List Call)
    → (length (run (init options reading) cs).seen_message_ids ≤ options.max_entries)
      × UniqueKeys (run (init options reading) cs).seen_message_ids
unfolding init
run-init-bounded options reading cs =
    let v = run-IsValid (init options reading) cs (init-IsValid options reading) in
    (
      omega (arith, v.bounded, ap (λ o. o.max_entries) (run_options (init options reading) cs)),
      v.unique,
    )
