-- ===== src/Trace/Queues.antt =====
-- About src/core/trace.ts: the queues of receive times stay within their two caps, and no receive time
-- is made up.
use cross_tab_worker_databus.Base.{
  ℕ, ◌+◌, ◌≤◌, ◌<◌, ◌≡◌, sym, subst, Option, none, some, List, [], ◌∷◌, ◌++◌, arith, dec_le, length,
  length-append, All, All-In, nat_has_eq,
}
use cross_tab_worker_databus.Base.JsMap.{
  JsMap, get, set, delete, set_absent, get-In, UniqueKeys, UniqueKeys-set, UniqueKeys-delete,
  length-delete-le, All-set, All-delete,
}
use cross_tab_worker_databus.Base.JsString.{Text, text_has_eq}
use cross_tab_worker_databus.Trace.Window.{
  Reading, max_pending_topics, max_pending_messages_per_topic, admit, shift,
}

abbrev pub Queues : Type 0
Queues = JsMap Text (List Reading)

-- How many receive times wait for their dispatch.
abbrev pub waiting : Queues → ℕ
waiting [] = 0
waiting ((topic, queue) ∷ m) = length queue + waiting m

abbrev pub Fits : Text × List Reading → Type 0
Fits e = (0 < length e.1) × (length e.1 ≤ max_pending_messages_per_topic)

-- No more topics than the cap, each once, with a queue within its cap that is not empty.
abbrev pub AreCapped : Queues → Type 0
AreCapped m = (length m ≤ max_pending_topics) × UniqueKeys m × All Fits m

-- How many receive times a shift takes.
abbrev pub taken : Option (List Reading) → ℕ
taken none = 0
taken (some []) = 0
taken (some (at ∷ queue)) = 1

waiting-append : (m n : Queues) → waiting (m ++ n) ≡ waiting m + waiting n
waiting-append [] n = omega arith
waiting-append ((k, q) ∷ m) n = omega (arith, waiting-append m n)

waiting-set :
    (k : Text) (q r : List Reading) (m : Queues)
    → get k m ≡ some q
    → waiting (set k r m) + length q ≡ waiting m + length r
unfolding get set
waiting-set k q r [] h = cc
waiting-set k q r ((j, s) ∷ m) h = ground (arith, waiting-set k q r m)

waiting-delete-le : (k : Text) (m : Queues) → waiting (delete k m) ≤ waiting m
unfolding delete
waiting-delete-le k [] = omega arith
waiting-delete-le k ((j, s) ∷ m) = ground (arith, waiting-delete-le k m)

waiting-delete :
    (k : Text) (q : List Reading) (m : Queues)
    → get k m ≡ some q
    → waiting (delete k m) + length q ≤ waiting m
unfolding get delete
waiting-delete k q [] h = cc
waiting-delete k q ((j, s) ∷ m) h = ground (arith, waiting-delete k q m, waiting-delete-le k m)

length-set :
    (k : Text) (q r : List Reading) (m : Queues) → get k m ≡ some q → length (set k r m) ≡ length m
unfolding get set
length-set k q r [] h = cc
length-set k q r ((j, s) ∷ m) h = ground (arith, length-set k q r m)

replaced :
    (k : Text) (q r : List Reading) (m : Queues)
    → get k m ≡ some q
    → AreCapped m
    → 0 < length r
    → length r ≤ max_pending_messages_per_topic
    → AreCapped (set k r m)
replaced k q r m h (c, u, f) l b = (
  subst (λ n. n ≤ max_pending_topics) (sym (length-set k q r m h)) c,
  UniqueKeys-set k r m u,
  All-set Fits k r m f (λ j. (l, b)),
)

pub admit-AreCapped :
    (topic : Text) (now : Reading) (m : Queues) (o : Option (List Reading))
    → get topic m ≡ o
    → AreCapped m
    → AreCapped (admit topic now m o) × (waiting (admit topic now m o) ≤ waiting m + 1)
unfolding admit
admit-AreCapped topic now m none h (c, u, f) = elim (dec_le max_pending_topics (length m)) [
  | yes q ↦ ground arith
  | no q ↦
      let e = set_absent topic (now ∷ []) m h in
      let n = length-append m ((topic, now ∷ []) ∷ []) in
      let w = waiting-append m ((topic, now ∷ []) ∷ []) in
      let unique = UniqueKeys-set topic (now ∷ []) m u in
      let fit = All-set Fits topic (now ∷ []) m f (λ j. (omega arith, omega arith)) in ground arith
]
admit-AreCapped topic now m (some queue) h v =
    elim (dec_le max_pending_messages_per_topic (length queue)) [
      | yes q ↦ ground arith
      | no q ↦
          let n = length-append queue (now ∷ []) in
          let w = waiting-set topic queue (queue ++ now ∷ []) m h in
          let r = replaced topic queue (queue ++ now ∷ []) m h v (omega arith) (omega arith) in
          ground arith
    ]

pub shift-AreCapped :
    (topic : Text) (m : Queues) (o : Option (List Reading))
    → get topic m ≡ o
    → AreCapped m
    → AreCapped (shift topic m o) × (waiting (shift topic m o) + taken o ≤ waiting m)
unfolding shift
shift-AreCapped topic m none h v = (v, omega arith)
shift-AreCapped topic m (some []) h (c, u, f) =
    let l = length-delete-le topic m in
    (
      (omega arith, UniqueKeys-delete topic m u, All-delete Fits topic m f),
      omega (arith, waiting-delete topic [] m h),
    )
shift-AreCapped topic m (some (at ∷ [])) h (c, u, f) =
    let l = length-delete-le topic m in
    (
      (omega arith, UniqueKeys-delete topic m u, All-delete Fits topic m f),
      omega (arith, waiting-delete topic (at ∷ []) m h),
    )
shift-AreCapped topic m (some (at ∷ next ∷ queue)) h v =
    let (l, b) =
      All-In Fits (topic, at ∷ next ∷ queue) m v.2 (get-In topic (at ∷ next ∷ queue) m h) in
    let w = waiting-set topic (at ∷ next ∷ queue) (next ∷ queue) m h in
    let r = replaced topic (at ∷ next ∷ queue) (next ∷ queue) m h v (omega arith) (omega arith) in
    ground arith
