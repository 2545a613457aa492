-- ===== src/Dedup/Entries.antt =====
-- The entries of src/core/dedup-manager.ts, `seenMessageIds`: unique keys, expiry and eviction.
use cross_tab_worker_databus.Base.{
  ℕ, zero, suc, ◌-◌, ◌≤◌, ◌<◌, ◌≡◌, refl, sym, ap, ◌∙◌, inl, inr, false, not, none, [], ◌∷◌, ◌++◌,
  arith, dec_lt, dec_le, Bool-cases, length, drop, length-append, All, length-filterb-le,
  filterb-append, suffix, suffix_short, drop_all, length-suffix, All-append,
}
use cross_tab_worker_databus.Base.JsMap.{
  JsMap, get, set, UniqueKeys, UniqueKeys-append, UniqueKeys-drop, set_absent,
}
use cross_tab_worker_databus.Base.JsString.{Text, text_has_eq}
use cross_tab_worker_databus.Dedup.Manager.{Ttl, evict, expired, drop_expired}

-- Eviction keeps the newest entries, up to the cap.
pub evict-suffix : (n : ℕ) (m : JsMap Text ℕ) → evict n m ≡ suffix n m
unfolding evict
evict-suffix n [] = sym (drop_all (0 - n) [] (omega arith))
evict-suffix n (e ∷ m) = elim (dec_le (suc (length m)) n) [
  | yes h ↦ ground (arith, suffix_short n (e ∷ m) h)
  | no h ↦
      let skip : suc (length m) - n ≡ suc (length m - n) = omega arith in
      rw skip (ground (arith, evict-suffix n m))
]

pub evict-set_absent :
    (n now : ℕ) (id : Text) (m : JsMap Text ℕ)
    → get id m ≡ none
    → evict n (set id now m) ≡ suffix n (m ++ (id, now) ∷ [])
evict-set_absent n now id m h =
    evict-suffix n (set id now m) ∙ ap (suffix n) (set_absent id now m h)

pub evict-set-UniqueKeys :
    (n now : ℕ) (id : Text) (m : JsMap Text ℕ)
    → get id m ≡ none
    → UniqueKeys m
    → UniqueKeys (evict n (set id now m))
evict-set-UniqueKeys n now id m h u =
    rw (evict-set_absent n now id m h)
      (UniqueKeys-drop _ (m ++ (id, now) ∷ []) (UniqueKeys-append id now m h u))

pub length-evict : (n : ℕ) (m : JsMap Text ℕ) → length (evict n m) ≤ n
length-evict n m = rw (evict-suffix n m) (omega (arith, length-suffix n m))

-- The oldest entry comes first, and none is later than the bound.
abbrev pub Ascending : ℕ → JsMap Text ℕ → Type 0
Ascending last [] = Unit
Ascending last ((id, t) ∷ m) = All (λ e. t ≤ e.1) m × (t ≤ last) × Ascending last m

abbrev pub fixed : ℕ → Ttl
fixed ttl = record { num = ttl; den = 1 }

abbrev pub live : ℕ → ℕ → JsMap Text ℕ → JsMap Text ℕ
live now ttl = drop_expired now (fixed ttl)

live-append_new :
    (now ttl : ℕ) (id : Text) (m : JsMap Text ℕ)
    → live now ttl (m ++ (id, now) ∷ []) ≡ live now ttl m ++ (id, now) ∷ []
live-append_new now ttl id m =
    ground (arith, filterb-append (λ e. not (expired now (fixed ttl) e.1)) m ((id, now) ∷ []))

live-All :
    (now ttl t : ℕ) (m : JsMap Text ℕ)
    → expired now (fixed ttl) t ≡ false
    → All (λ e. t ≤ e.1) m
    → live now ttl m ≡ m
live-All now ttl t [] h a = refl
live-All now ttl t ((id, u) ∷ m) h a = ground (arith, live-All now ttl t m h a.1)

window_short :
    (n now ttl : ℕ) (id : Text) (s : JsMap Text ℕ)
    → length (live now ttl s) < n
    → suffix n (live now ttl s ++ (id, now) ∷ []) ≡ live now ttl s ++ (id, now) ∷ []
window_short n now ttl id s h =
    suffix_short n (live now ttl s ++ (id, now) ∷ [])
      (omega (arith, length-append (live now ttl s) ((id, now) ∷ [])))

-- To expire and then keep the newest `n` is to keep the newest `n` and then expire.
pub expired_window :
    (n now ttl : ℕ) (id : Text) (s : JsMap Text ℕ)
    → 0 < n
    → length s ≤ n
    → Ascending now s
    → suffix n (live now ttl s ++ (id, now) ∷ []) ≡ live now ttl (suffix n (s ++ (id, now) ∷ []))
expired_window n now ttl id [] p q a =
    window_short n now ttl id [] p
    ∙ sym (live-append_new now ttl id [])
    ∙ ap (live now ttl) (sym (suffix_short n ((id, now) ∷ []) (omega arith)))
expired_window n now ttl id ((k, t) ∷ s) p q a = elim (dec_lt (length ((k, t) ∷ s)) n) [
  | yes short ↦
      window_short n now ttl id ((k, t) ∷ s)
        (omega (arith, length-filterb-le (λ e. not (expired now (fixed ttl) e.1)) ((k, t) ∷ s)))
      ∙ sym (live-append_new now ttl id ((k, t) ∷ s))
      ∙ ap (live now ttl) (
          sym (
            suffix_short n ((k, t) ∷ s ++ (id, now) ∷ [])
              (omega (arith, length-append s ((id, now) ∷ [])))))
  | no long ↦
      let skip : length ((k, t) ∷ s ++ (id, now) ∷ []) - n ≡ 1 =
        omega (arith, length-append s ((id, now) ∷ [])) in
      elim (Bool-cases (expired now (fixed ttl) t)) [
        | inl old ↦ rw skip (
            ground (
              arith,
              window_short n now ttl id s
                  (omega (arith, length-filterb-le (λ e. not (expired now (fixed ttl) e.1)) s)),
              live-append_new now ttl id s,
            ))
        | inr new ↦
            ap (λ l. suffix n (l ++ (id, now) ∷ []))
              (live-All now ttl t ((k, t) ∷ s) new (omega arith, a.0))
            ∙ ap (λ j. drop j ((k, t) ∷ s ++ (id, now) ∷ [])) skip
            ∙ sym (
                live-append_new now ttl id s
                ∙ ap (λ l. l ++ (id, now) ∷ []) (live-All now ttl t s new a.0))
            ∙ ap (λ j. live now ttl (drop j ((k, t) ∷ s ++ (id, now) ∷ []))) (sym skip)
      ]
]

pub Ascending-drop : (last n : ℕ) (m : JsMap Text ℕ) → Ascending last m → Ascending last (drop n m)
Ascending-drop last zero m a = a
Ascending-drop last (suc n) [] a = tt
Ascending-drop last (suc n) ((k, t) ∷ m) a = Ascending-drop last n m a.2

pub Ascending-later :
    (last now : ℕ) (m : JsMap Text ℕ) → last ≤ now → Ascending last m → Ascending now m
Ascending-later last now [] h a = tt
Ascending-later last now ((k, t) ∷ m) h a = (a.0, omega arith, Ascending-later last now m h a.2)

All-snoc :
    (t now : ℕ) (id : Text) (m : JsMap Text ℕ)
    → t ≤ now
    → All (λ e. t ≤ e.1) m
    → All (λ e. t ≤ e.1) (m ++ (id, now) ∷ [])
All-snoc t now id m h a = All-append (λ e. t ≤ e.1) m ((id, now) ∷ []) a (h, tt)

pub Ascending-append :
    (now : ℕ) (id : Text) (m : JsMap Text ℕ) → Ascending now m → Ascending now (m ++ (id, now) ∷ [])
Ascending-append now id [] a = (tt, omega arith, tt)
Ascending-append now id ((k, t) ∷ m) a =
    (All-snoc t now id m a.1 a.0, a.1, Ascending-append now id m a.2)
