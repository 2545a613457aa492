-- ===== src/Workers/Reaping.antt =====
-- About src/workers/port-reaper.ts: a pass of the reaper takes exactly the silent ports.
use cross_tab_worker_databus.Base.{
  ℕ, ◌≡◌, refl, sym, ap, inl, inr, Bool, true, false, ◌&&◌, none, List, [], ◌∷◌, ◌++◌, arith,
  ℕ_discrete, if◌then◌else◌, Bool-cases, append-nil, append_assoc,
}
use cross_tab_worker_databus.Base.{nat_has_eq}
use cross_tab_worker_databus.Base.JsMap.{JsMap, get, has, get-delete, UniqueKeys}
use cross_tab_worker_databus.Workers.Reaper.{
  ReapTarget, PortReaper, Call, is_silent, forget, teardown, reap_loop, reap, schedule,
}

-- The three entries of a port after a pass over `l`.
abbrev pub Passed : ℕ → JsMap ℕ ReapTarget → PortReaper → PortReaper → ℕ → Type 0
Passed now l r u q =
    let taken = has q l && is_silent r now q in
    (get q u.targets ≡ (if taken then none else get q r.targets))
    × (get q u.last_seen_at ≡ (if taken then none else get q r.last_seen_at))
    × (get q u.session_timeout_ms ≡ (if taken then none else get q r.session_timeout_ms))

-- What the pass calls on the targets: for each silent port, in the order of the ports.
abbrev pub teardowns : ℕ → PortReaper → JsMap ℕ ReapTarget → List Call
teardowns now r [] = []
teardowns now r ((port, target) ∷ l) =
    if is_silent r now port then teardown port target ++ teardowns now r l else teardowns now r l

abbrev taken_out : ℕ → ReapTarget → PortReaper → PortReaper
taken_out port target r = record (forget port r) { calls = r.calls ++ teardown port target }

reap_loop-Passed :
    (now : ℕ) (l : JsMap ℕ ReapTarget) (r : PortReaper) (any : Bool) (q : ℕ)
    → UniqueKeys l
    → Passed now l r (reap_loop now l r any).0 q
unfolding reap_loop get
reap_loop-Passed now [] r any q u = (refl, refl, refl)
reap_loop-Passed now ((port, target) ∷ l) r any q u = elim (Bool-cases (is_silent r now port)) [
  | inl t ↦ elim (ℕ_discrete port q) [
    | yes h ↦ ground (
      arith,
      reap_loop-Passed now l (taken_out port target r) true q u.1,
      get-delete q port r.targets,
      get-delete q port r.last_seen_at,
      get-delete q port r.session_timeout_ms,
      ap (is_silent r now) h,
      ap (λ k. get k l) h,
    )
    | no h ↦ ground (
      arith,
      reap_loop-Passed now l (taken_out port target r) true q u.1,
      get-delete q port r.targets,
      get-delete q port r.last_seen_at,
      get-delete q port r.session_timeout_ms,
    )
  ]
  | inr f ↦ elim (ℕ_discrete port q) [
    | yes h ↦
        ground
          (arith, reap_loop-Passed now l r any q u.1, ap (is_silent r now) h, ap (λ k. get k l) h)
    | no h ↦ ground (arith, reap_loop-Passed now l r any q u.1)
  ]
]

-- The silence of the other ports is what it was.
teardowns_lem :
    (now : ℕ) (l : JsMap ℕ ReapTarget) (port : ℕ) (target : ReapTarget) (r : PortReaper)
    → get port l ≡ none
    → teardowns now (taken_out port target r) l ≡ teardowns now r l
unfolding get
teardowns_lem now [] port target r h = refl
teardowns_lem now ((q, t) ∷ l) port target r h = ground (
  arith,
  teardowns_lem now l port target r,
  get-delete q port r.last_seen_at,
  get-delete q port r.session_timeout_ms,
)

reap_loop-calls :
    (now : ℕ) (l : JsMap ℕ ReapTarget) (r : PortReaper) (any : Bool)
    → UniqueKeys l
    → (reap_loop now l r any).0.calls ≡ r.calls ++ teardowns now r l
unfolding reap_loop
reap_loop-calls now [] r any u = sym (append-nil r.calls)
reap_loop-calls now ((port, target) ∷ l) r any u = elim (Bool-cases (is_silent r now port)) [
  | inl t ↦ ground (
    arith,
    reap_loop-calls now l (taken_out port target r) true u.1,
    teardowns_lem now l port target r u.0,
    append_assoc r.calls (teardown port target) (teardowns now r l),
  )
  | inr f ↦ ground (arith, reap_loop-calls now l r any u.1)
]

schedule-frame :
    (r : PortReaper)
    → ((schedule r).targets ≡ r.targets)
      × ((schedule r).last_seen_at ≡ r.last_seen_at)
      × ((schedule r).session_timeout_ms ≡ r.session_timeout_ms)
      × ((schedule r).calls ≡ r.calls)
unfolding schedule
schedule-frame r = (ground arith, ground arith, ground arith, ground arith)

-- If no port is tracked twice, a pass at `now` takes exactly the tracked ports that have been silent
-- for longer than their timeout out of all three maps and leaves the entries of the others alone, and
-- calls on the taken ones, in their order, notify, then close, then stop, up to the first of these
-- that throws; a port whose timeout is infinite is not taken.
pub reap-Passed :
    (r : PortReaper) (now q : ℕ)
    → UniqueKeys r.targets
    → Passed now r.targets r (reap r now) q
      × ((reap r now).calls ≡ r.calls ++ teardowns now r r.targets)
unfolding reap
reap-Passed r now q u =
    let p = reap_loop-Passed now r.targets r false q u in
    let c = reap_loop-calls now r.targets r false u in
    let f = schedule-frame (reap_loop now r.targets r false).0 in
    ((ground (arith, p, f), ground (arith, p, f), ground (arith, p, f)), ground (arith, c, f))
