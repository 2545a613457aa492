-- ===== src/Dedup/History.antt =====
-- src/core/dedup-manager.ts against an independent specification, for a fixed time to live and a clock
-- that does not run backwards: a manager answers from nothing but the history of what it accepted.
use cross_tab_worker_databus.Base.{
  ℕ, ◌-◌, ◌≤◌, ◌<◌, ◌≡◌, refl, sym, ap, ◌∙◌, inl, inr, Bool, true, false, not, none, some, List, [],
  ◌∷◌, ◌++◌, arith, if◌then◌else◌, Option-cases, length, filterb-filterb, suffix, drop_all,
  length-suffix, suffix-append-suffix,
}
use mathlib.Core.Path.{ap₂}
use cross_tab_worker_databus.Base.JsMap.{JsMap, get, has}
use cross_tab_worker_databus.Base.JsString.{Text, text_has_eq}
use cross_tab_worker_databus.Routing.Topics.{is_empty}
use cross_tab_worker_databus.Dedup.Manager.{
  Options, DedupManager, init, now_ms, current_ttl, check_and_record, is_duplicate, expired,
  drop_expired,
}
use cross_tab_worker_databus.Dedup.Entries.{
  Ascending, Ascending-drop, Ascending-later, Ascending-append, live, fixed, expired_window,
  evict-set_absent,
}
use cross_tab_worker_databus.Dedup.Bounded.{check_and_record_options}

pub record Publication : Type 0 where
  pub id : Text
  pub topic : Text
  pub at : ℕ

-- Whether one of the last `cap` accepted publications has the id and is at most `ttl` old.
abbrev pub seen_lately : ℕ → ℕ → List (Text × ℕ) → Publication → Bool
seen_lately cap ttl log p = has p.id (live p.at ttl (suffix cap log))

abbrev pub note : ℕ → ℕ → List (Text × ℕ) → Publication → List (Text × ℕ)
note cap ttl log p = if seen_lately cap ttl log p then log else log ++ (p.id, p.at) ∷ []

-- The specification: the verdicts on a list of publications, from the log of the accepted ones.
pub verdicts : ℕ → ℕ → List (Text × ℕ) → List Publication → List Bool
verdicts cap ttl log [] = []
verdicts cap ttl log (p ∷ ps) = seen_lately cap ttl log p ∷ verdicts cap ttl (note cap ttl log p) ps

-- The manager's verdicts on the same publications.
pub suppressions : DedupManager → List Publication → List Bool
suppressions d [] = []
suppressions d (p ∷ ps) =
    let (d', verdict) = is_duplicate d (some p.at) (some p.at) p.id p.topic in
    verdict ∷ suppressions d' ps

-- The publications carry ids, and their times do not fall below the bound or one another.
abbrev pub InOrder : ℕ → List Publication → Type 0
InOrder last [] = Unit
InOrder last (p ∷ ps) = (is_empty p.id ≡ false) × (last ≤ p.at) × InOrder p.at ps

record Tracks (d : DedupManager) (log : List (Text × ℕ)) (last : ℕ) : Type 0 where
  on : d.enabled ≡ true
  constant : d.adaptive_bounds ≡ none
  room : 0 < d.max_entries
  window : d.seen_message_ids ≡ live last d.ttl_ms (suffix d.max_entries log)
  ordered : Ascending last log

live-live :
    (ttl last now : ℕ) (m : JsMap Text ℕ)
    → last ≤ now
    → live now ttl (live last ttl m) ≡ live now ttl m
live-live ttl last now m h =
    filterb-filterb (λ e. not (expired now (fixed ttl) e.1))
      (λ e. not (expired last (fixed ttl) e.1)) m (λ e k. ground arith)

-- What the part behind the guard does at the time of the publication.
abbrev checked : DedupManager → Publication → DedupManager × Bool
checked d p = check_and_record d p.at (fixed d.ttl_ms) p.id p.topic

abbrev noted : DedupManager → List (Text × ℕ) → Publication → List (Text × ℕ)
noted d = note d.max_entries d.ttl_ms

module _ (d : DedupManager) (log : List (Text × ℕ)) (last : ℕ) (p : Publication) where
  checked_lem :
      Tracks d log last
      → last ≤ p.at
      → ((checked d p).1 ≡ seen_lately d.max_entries d.ttl_ms log p)
        × ((checked d p).0.seen_message_ids
            ≡ live p.at d.ttl_ms (suffix d.max_entries (noted d log p)))
        × Ascending p.at (noted d log p)
  unfolding check_and_record
  checked_lem t h =
      let s = suffix d.max_entries log in
      let entries : drop_expired p.at (fixed d.ttl_ms) d.seen_message_ids ≡ live p.at d.ttl_ms s =
        ap (live p.at d.ttl_ms) t.window ∙ live-live d.ttl_ms last p.at s h in
      let later = Ascending-later last p.at log h t.ordered in
      elim (Option-cases (get p.id (live p.at d.ttl_ms s))) [
        | inl absent ↦
            let gone = ap (get p.id) entries ∙ absent in
            let kept =
              evict-set_absent d.max_entries p.at p.id _ gone
              ∙ ap (λ m. suffix d.max_entries (m ++ (p.id, p.at) ∷ [])) entries
              ∙ expired_window d.max_entries p.at d.ttl_ms p.id s t.room
                  (omega (arith, length-suffix d.max_entries log))
                  (Ascending-drop p.at (length log - d.max_entries) log later)
              ∙ ap (live p.at d.ttl_ms)
                  (suffix-append-suffix d.max_entries log (p.id, p.at) t.room) in
            (
              ground (arith, gone, absent),
              ground (arith, gone, absent, kept),
              ground (arith, absent, Ascending-append p.at p.id log later),
            )
        | inr (u, present) ↦
            let there = ap (get p.id) entries ∙ present in
            (
              ground (arith, there, present),
              ground (arith, there, present, entries),
              ground (arith, present, later),
            )
      ]

checked-Tracks :
    (d : DedupManager) (log : List (Text × ℕ)) (last : ℕ) (p : Publication)
    → Tracks d log last
    → last ≤ p.at
    → Tracks (checked d p).0 (noted d log p) p.at
checked-Tracks d log last p t h =
    let same = check_and_record_options d p.at (fixed d.ttl_ms) p.id p.topic in
    let (_, window, ordered) = checked_lem d log last p t h in
    record {
      on = ap (λ o. o.enabled) same ∙ t.on;
      constant = ap (λ o. o.adaptive_bounds) same ∙ t.constant;
      room = omega (arith, t.room, ap (λ o. o.max_entries) same);
      window =
          window ∙ ap (λ o. live p.at o.ttl_ms (suffix o.max_entries (noted d log p))) (sym same);
      ordered = ordered;
    }

-- The clock is read, and the fixed time to live does not read it again.
abbrev at_time : DedupManager → ℕ → DedupManager
at_time d now = record d { last_finite_now = now }

is_duplicate-checked :
    (d : DedupManager) (p : Publication)
    → d.enabled ≡ true
    → d.adaptive_bounds ≡ none
    → is_empty p.id ≡ false
    → is_duplicate d (some p.at) (some p.at) p.id p.topic ≡ checked (at_time d p.at) p
unfolding is_duplicate current_ttl now_ms
is_duplicate-checked d p on constant id = ground arith

suppressions-Tracks :
    (ps : List Publication) (d : DedupManager) (log : List (Text × ℕ)) (last : ℕ)
    → Tracks d log last
    → InOrder last ps
    → suppressions d ps ≡ verdicts d.max_entries d.ttl_ms log ps
unfolding suppressions verdicts
suppressions-Tracks [] d log last t o = refl
suppressions-Tracks (p ∷ ps) d log last t (id, h, o) =
    let d1 = at_time d p.at in
    let t1 : Tracks d1 log last = record {
      on = t.on;
      constant = t.constant;
      room = t.room;
      window = t.window;
      ordered = t.ordered;
    } in
    let (verdict, _, _) = checked_lem d1 log last p t1 h in
    let same = check_and_record_options d1 p.at (fixed d.ttl_ms) p.id p.topic in
    let rest =
      suppressions-Tracks ps (checked d1 p).0 (noted d log p) p.at
        (checked-Tracks d1 log last p t1 h) o in
    rw (is_duplicate-checked d p t.on t.constant id)
      (ap₂ ◌∷◌ verdict (rest ∙ ap (λ o. verdicts o.max_entries o.ttl_ms (noted d log p) ps) same))

-- With a fixed time to live, a positive cap, and a clock that does not run backwards, a new manager
-- suppresses a publication exactly when one of the last `max_entries` publications that it accepted
-- carried the same id, at most `ttl_ms` ago.
pub suppressions-verdicts :
    (options : Options) (start : ℕ) (ps : List Publication)
    → options.enabled ≡ true
    → options.adaptive_bounds ≡ none
    → 0 < options.max_entries
    → InOrder start ps
    → suppressions (init options (some start)) ps
      ≡ verdicts options.max_entries options.ttl_ms [] ps
unfolding init
suppressions-verdicts options start ps on constant room o =
    suppressions-Tracks ps (init options (some start)) [] start
      (record {
        on = on;
        constant = constant;
        room = room;
        window =
            ap (live start options.ttl_ms)
              (sym (drop_all (0 - options.max_entries) [] (omega arith)));
        ordered = tt;
      })
      o
