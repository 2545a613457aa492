-- ===== src/Base/Suffix.antt =====
-- The last elements of a list: `slice(-n)`, and what a queue with a cap keeps.
use Prim.Native.Nat.{ℕ, zero, suc, ◌+◌, ◌-◌, ◌≤◌, ◌<◌, min}
use mathlib.Core.Path.{◌≡◌, refl, ap, sym, ◌∙◌}
use mathlib.Core.List.{List, [], ◌∷◌, ◌++◌}
use native.Mathlib.Decide.{dec_le}
use native.Mathlib.Omega.{arith}
use cross_tab_worker_databus.Base.Lists.{length, drop, length-append, length-drop}

module _ {ℓ} {A : Type ℓ} where
  abbrev pub suffix : ℕ → List A → List A
  suffix n xs = drop (length xs - n) xs

  pub drop_all : (n : ℕ) (xs : List A) → length xs ≤ n → drop n xs ≡ []
  drop_all zero [] h = refl
  drop_all zero (x ∷ xs) h = absurd (omega arith)
  drop_all (suc n) [] h = refl
  drop_all (suc n) (x ∷ xs) h = drop_all n xs (omega arith)

  pub drop-drop : (n m k : ℕ) (xs : List A) → k ≡ m + n → drop n (drop m xs) ≡ drop k xs
  drop-drop n zero k xs h = let e : n ≡ k = omega arith in rw e
  drop-drop n (suc m) zero xs h = absurd (omega arith)
  drop-drop n (suc m) (suc k) [] h = drop_all n [] (omega arith)
  drop-drop n (suc m) (suc k) (x ∷ xs) h = drop-drop n m k xs (omega arith)

  pub drop-append : (n : ℕ) (xs ys : List A) → n ≤ length xs → drop n (xs ++ ys) ≡ drop n xs ++ ys
  drop-append zero xs ys h = refl
  drop-append (suc n) [] ys h = absurd (omega arith)
  drop-append (suc n) (x ∷ xs) ys h = drop-append n xs ys (omega arith)

  pub length-suffix : (n : ℕ) (xs : List A) → length (suffix n xs) ≡ min n (length xs)
  length-suffix n xs = omega (arith, length-drop (length xs - n) xs)

  pub suffix_short : (n : ℕ) (xs : List A) → length xs ≤ n → suffix n xs ≡ xs
  suffix_short n xs h = let e : length xs - n ≡ 0 = omega arith in rw e

  -- To append and keep the last `n`, only the last `n` that were there matter.
  pub suffix-append-suffix :
      (n : ℕ) (xs : List A) (x : A)
      → 0 < n
      → suffix n (suffix n xs ++ x ∷ []) ≡ suffix n (xs ++ x ∷ [])
  suffix-append-suffix n xs x h = elim (dec_le (length xs) n) [
    | yes short ↦ rw (suffix_short n xs short)
    | no long ↦
        let skip : length (suffix n xs ++ x ∷ []) - n ≡ 1 =
          omega (arith, length-append (suffix n xs) (x ∷ []), length-drop (length xs - n) xs) in
        let all : length (xs ++ x ∷ []) - n ≡ suc (length xs - n) =
          omega (arith, length-append xs (x ∷ [])) in
        ap (λ k. drop k (suffix n xs ++ x ∷ [])) skip
        ∙ drop-append 1 (suffix n xs) (x ∷ []) (omega (arith, length-suffix n xs))
        ∙ ap (λ l. l ++ x ∷ []) (drop-drop 1 (length xs - n) (suc (length xs - n)) xs (omega arith))
        ∙ sym (drop-append (suc (length xs - n)) xs (x ∷ []) (omega arith))
        ∙ ap (λ k. drop k (xs ++ x ∷ [])) (sym all)
  ]

  pub suffix-suffix : (n m : ℕ) (xs : List A) → suffix n (suffix m xs) ≡ suffix (min n m) xs
  suffix-suffix n m xs =
      drop-drop (length (suffix m xs) - n) (length xs - m) (length xs - min n m) xs
        (omega (arith, length-suffix m xs))
