-- ===== src/Base/JsMap.antt =====
-- JavaScript's Map and, with values in `Unit`, its Set: an association list in insertion order.
-- `set` on a key that is there keeps its place, and a new key goes to the end.
use Prim.Native.Nat.{ℕ, zero, suc, ◌≤◌}
use mathlib.Core.Path.{◌≡◌, refl, ap}
use mathlib.Core.Logic.{ite, inl, inr}
use mathlib.Core.Bool.{Bool}
use mathlib.Core.List.{List, [], ◌∷◌, ◌++◌}
use mathlib.Core.Option.{Option, none, some}
use native.Mathlib.Omega.{arith}
use cross_tab_worker_databus.Base.Tests.{if◌then◌else◌, is_some}
use cross_tab_worker_databus.Base.Lists.{length, drop, filterb, All, In}
use cross_tab_worker_databus.Base.Eq.{HasEq}

abbrev pub JsMap {ℓ} : Type ℓ → Type ℓ → Type ℓ
JsMap K V = List (K × V)

module _ {ℓ} {K V : Type ℓ} ⦃e : HasEq K⦄ where
  unfoldable pub get : K → JsMap K V → Option V
  get k [] = none
  get k ((j, v) ∷ m) = ite (e.dec j k) (some v) (get k m)

  abbrev pub has : K → JsMap K V → Bool
  has k m = is_some (get k m)

  unfoldable pub set : K → V → JsMap K V → JsMap K V
  set k v [] = (k, v) ∷ []
  set k v ((j, w) ∷ m) = ite (e.dec j k) ((j, v) ∷ m) ((j, w) ∷ set k v m)

  unfoldable pub delete : K → JsMap K V → JsMap K V
  delete k [] = []
  delete k ((j, w) ∷ m) = ite (e.dec j k) (delete k m) ((j, w) ∷ delete k m)

  pub get-set :
      (j k : K) (v : V) (m : JsMap K V) → get j (set k v m) ≡ ite (e.dec k j) (some v) (get j m)
  unfolding get set
  get-set j k v [] = ground arith
  get-set j k v ((i, w) ∷ m) = ground (arith, get-set j k v m)

  pub get-set_self : (k : K) (v : V) (m : JsMap K V) → get k (set k v m) ≡ some v
  get-set_self k v m = ground (arith, get-set k k v m)

  pub set-set : (k : K) (v w : V) (m : JsMap K V) → set k w (set k v m) ≡ set k w m
  unfolding set
  set-set k v w [] = ground arith
  set-set k v w ((i, u) ∷ m) = ground (arith, set-set k v w m)

  pub get-delete : (j k : K) (m : JsMap K V) → get j (delete k m) ≡ ite (e.dec k j) none (get j m)
  unfolding get delete
  get-delete j k [] = ground arith
  get-delete j k ((i, w) ∷ m) = ground (arith, get-delete j k m)

  pub length-delete-le : (k : K) (m : JsMap K V) → length (delete k m) ≤ length m
  unfolding delete
  length-delete-le k [] = omega arith
  length-delete-le k ((i, w) ∷ m) = ground (arith, length-delete-le k m)

  -- A key that is not there is put at the end.
  pub set_absent : (k : K) (v : V) (m : JsMap K V) → get k m ≡ none → set k v m ≡ m ++ (k, v) ∷ []
  unfolding get set
  set_absent k v [] h = refl
  set_absent k v ((i, w) ∷ m) h = ground (arith, set_absent k v m)

-- Every key has one entry, as a Map has it.
module _ {K V : Type 0} ⦃e : HasEq K⦄ where
  abbrev pub UniqueKeys : JsMap K V → Type 0
  UniqueKeys [] = Unit
  UniqueKeys ((k, v) ∷ m) = (get k m ≡ none) × UniqueKeys m

  pub get-append :
      (k : K) (m n : JsMap K V)
      → get k (m ++ n) ≡ elim (get k m) [ none ↦ get k n | some v ↦ some v ]
  unfolding get
  get-append k [] n = refl
  get-append k ((j, v) ∷ m) n = ground (arith, get-append k m n)

  pub UniqueKeys-append :
      (k : K) (v : V) (m : JsMap K V)
      → get k m ≡ none
      → UniqueKeys m
      → UniqueKeys (m ++ (k, v) ∷ [])
  unfolding get
  UniqueKeys-append k v [] h u = (refl, tt)
  UniqueKeys-append k v ((j, w) ∷ m) h u =
      (ground (arith, get-append j m ((k, v) ∷ [])), UniqueKeys-append k v m (ground arith) u.1)

  pub get-filterb-none :
      (p : K × V → Bool) (k : K) (m : JsMap K V) → get k m ≡ none → get k (filterb p m) ≡ none
  unfolding get
  get-filterb-none p k [] h = refl
  get-filterb-none p k ((j, w) ∷ m) h = ground (arith, get-filterb-none p k m)

  pub UniqueKeys-filterb :
      (p : K × V → Bool) (m : JsMap K V) → UniqueKeys m → UniqueKeys (filterb p m)
  unfolding get
  UniqueKeys-filterb p [] u = tt
  UniqueKeys-filterb p ((j, w) ∷ m) u =
      ground (arith, get-filterb-none p j m, UniqueKeys-filterb p m u.1)

  -- What a filtered map holds under a key: the entry, if it passes.
  pub get-filterb :
      (p : K × V → Bool) (k : K) (m : JsMap K V)
      → UniqueKeys m
      → get k (filterb p m)
        ≡ elim (get k m) [ none ↦ none | some v ↦ if p (k, v) then some v else none ]
  unfolding get
  get-filterb p k [] u = refl
  get-filterb p k ((j, w) ∷ m) u = elim (e.dec j k) [
    | yes h ↦ ground (arith, ap (λ t. p (t, w)) h, get-filterb p k m u.1, get-filterb-none p k m)
    | no h ↦ ground (arith, get-filterb p k m u.1)
  ]

  pub UniqueKeys-drop : (n : ℕ) (m : JsMap K V) → UniqueKeys m → UniqueKeys (drop n m)
  UniqueKeys-drop zero m u = u
  UniqueKeys-drop (suc n) [] u = tt
  UniqueKeys-drop (suc n) ((k, v) ∷ m) u = UniqueKeys-drop n m u.1

  pub UniqueKeys-set : (k : K) (v : V) (m : JsMap K V) → UniqueKeys m → UniqueKeys (set k v m)
  unfolding set get
  UniqueKeys-set k v [] u = (refl, tt)
  UniqueKeys-set k v ((j, w) ∷ m) u = ground (arith, get-set j k v m, UniqueKeys-set k v m u.1)

  pub UniqueKeys-delete : (k : K) (m : JsMap K V) → UniqueKeys m → UniqueKeys (delete k m)
  unfolding delete
  UniqueKeys-delete k [] u = tt
  UniqueKeys-delete k ((j, w) ∷ m) u = ground (arith, get-delete j k m, UniqueKeys-delete k m u.1)

  pub All-set :
      (P : K × V → Type 0) (k : K) (v : V) (m : JsMap K V)
      → All P m
      → ((j : K) → P (j, v))
      → All P (set k v m)
  unfolding set
  All-set P k v [] h p = (p k, tt)
  All-set P k v ((j, w) ∷ m) h p = ground (arith, p j, All-set P k v m h.1 p)

  pub All-delete : (P : K × V → Type 0) (k : K) (m : JsMap K V) → All P m → All P (delete k m)
  unfolding delete
  All-delete P k [] h = tt
  All-delete P k ((j, w) ∷ m) h = ground (arith, All-delete P k m h.1)

  pub get-In : (k : K) (v : V) (m : JsMap K V) → get k m ≡ some v → In (k, v) m
  unfolding get
  get-In k v [] h = cc
  get-In k v ((j, w) ∷ m) h = elim (e.dec j k) [
    | yes q ↦ inl (ground arith)
    | no q ↦ inr (get-In k v m (ground arith))
  ]

  -- A map without a key is empty.
  pub no_keys : (m : JsMap K V) → ((k : K) → get k m ≡ none) → m ≡ []
  unfolding get
  no_keys [] h = refl
  no_keys ((j, w) ∷ m) h = let n = h j in absurd (ground arith)
