-- ===== src/Prelude/Lists.antt =====
-- Lists measured and indexed by native numbers, under the library's names, and memory blocks.
use Prim.Native.Nat.{ℕ, zero, suc, ◌+◌, ◌-◌, ◌≤◌, min}
use mathlib.Core.Path.{◌≡◌, refl, ap}
use mathlib.Core.List.{List, [], ◌∷◌, ◌++◌}
use native.Mathlib.Omega.{arith}

module _ {ℓ} {A : Type ℓ} where
  abbrev pub length : List A → ℕ
  length [] = 0
  length (x ∷ xs) = suc (length xs)

  abbrev pub take : ℕ → List A → List A
  take zero xs = []
  take (suc n) [] = []
  take (suc n) (x ∷ xs) = x ∷ take n xs

  abbrev pub drop : ℕ → List A → List A
  drop zero xs = xs
  drop (suc n) [] = []
  drop (suc n) (x ∷ xs) = drop n xs

  abbrev pub replicate : ℕ → A → List A
  replicate zero a = []
  replicate (suc n) a = a ∷ replicate n a

  -- `ys` stored from index `i` on; what would lie past the end is not stored.
  abbrev pub overwrite : List A → ℕ → List A → List A
  overwrite [] i ys = []
  overwrite (x ∷ xs) zero [] = x ∷ xs
  overwrite (x ∷ xs) zero (y ∷ ys) = y ∷ overwrite xs zero ys
  overwrite (x ∷ xs) (suc i) ys = x ∷ overwrite xs i ys

  pub length-append : (xs ys : List A) → length (xs ++ ys) ≡ length xs + length ys
  length-append [] ys = omega arith
  length-append (x ∷ xs) ys = omega (arith, length-append xs ys)

  pub length-take : (n : ℕ) (xs : List A) → length (take n xs) ≡ min n (length xs)
  length-take zero xs = omega arith
  length-take (suc n) [] = omega arith
  length-take (suc n) (x ∷ xs) = omega (arith, length-take n xs)

  pub length-drop : (n : ℕ) (xs : List A) → length (drop n xs) ≡ length xs - n
  length-drop zero xs = omega arith
  length-drop (suc n) [] = omega arith
  length-drop (suc n) (x ∷ xs) = omega (arith, length-drop n xs)

  pub length-replicate : (n : ℕ) (a : A) → length (replicate n a) ≡ n
  length-replicate zero a = refl
  length-replicate (suc n) a = ap suc (length-replicate n a)

  pub length-overwrite :
      (xs : List A) (i : ℕ) (ys : List A) → length (overwrite xs i ys) ≡ length xs
  length-overwrite [] i ys = refl
  length-overwrite (x ∷ xs) zero [] = refl
  length-overwrite (x ∷ xs) zero (y ∷ ys) = ap suc (length-overwrite xs zero ys)
  length-overwrite (x ∷ xs) (suc i) ys = ap suc (length-overwrite xs i ys)

  pub take_all : (n : ℕ) (xs : List A) → length xs ≤ n → take n xs ≡ xs
  take_all zero [] h = refl
  take_all zero (x ∷ xs) h = absurd (omega arith)
  take_all (suc n) [] h = refl
  take_all (suc n) (x ∷ xs) h = ap (◌∷◌ x) (take_all n xs (omega arith))

  -- A block of `ys` stored behind the first `i` elements.
  pub take-overwrite :
      (xs : List A) (i : ℕ) (ys : List A)
      → i + length ys ≤ length xs
      → take (i + length ys) (overwrite xs i ys) ≡ take i xs ++ ys
  take-overwrite [] zero [] h = refl
  take-overwrite [] zero (y ∷ ys) h = absurd (omega arith)
  take-overwrite [] (suc i) ys h = absurd (omega arith)
  take-overwrite (x ∷ xs) zero [] h = refl
  take-overwrite (x ∷ xs) zero (y ∷ ys) h =
      let e : 0 + suc (length ys) ≡ suc (0 + length ys) = omega arith in
      rw e (ap (◌∷◌ y) (take-overwrite xs zero ys (omega arith)))
  take-overwrite (x ∷ xs) (suc i) ys h =
      let e : suc i + length ys ≡ suc (i + length ys) = omega arith in
      rw e (ap (◌∷◌ x) (take-overwrite xs i ys (omega arith)))

  pub drop-overwrite :
      (r k : ℕ) (xs ys : List A) → drop r (overwrite xs (r + k) ys) ≡ overwrite (drop r xs) k ys
  drop-overwrite zero k xs ys = let e : 0 + k ≡ k = omega arith in rw e
  drop-overwrite (suc r) k [] ys = refl
  drop-overwrite (suc r) k (x ∷ xs) ys =
      let e : suc r + k ≡ suc (r + k) = omega arith in rw e (drop-overwrite r k xs ys)

  -- What lies within `xs` does not depend on what follows it.
  pub take-drop-append :
      (n r : ℕ) (xs ys : List A)
      → r + n ≤ length xs
      → take n (drop r (xs ++ ys)) ≡ take n (drop r xs)
  take-drop-append zero zero xs ys h = refl
  take-drop-append (suc n) zero [] ys h = absurd (omega arith)
  take-drop-append (suc n) zero (x ∷ xs) ys h =
      ap (◌∷◌ x) (take-drop-append n zero xs ys (omega arith))
  take-drop-append zero (suc r) [] ys h = refl
  take-drop-append (suc n) (suc r) [] ys h = absurd (omega arith)
  take-drop-append zero (suc r) (x ∷ xs) ys h = refl
  take-drop-append (suc n) (suc r) (x ∷ xs) ys h = take-drop-append (suc n) r xs ys (omega arith)

  pub drop-drop : (n r : ℕ) (xs : List A) → drop n (drop r xs) ≡ drop (r + n) xs
  drop-drop n zero xs = let e : 0 + n ≡ n = omega arith in rw e
  drop-drop zero (suc r) [] = let e : suc r + 0 ≡ suc r = omega arith in rw e
  drop-drop (suc n) (suc r) [] = let e : suc r + suc n ≡ suc (r + suc n) = omega arith in rw e
  drop-drop n (suc r) (x ∷ xs) =
      let e : suc r + n ≡ suc (r + n) = omega arith in rw e (drop-drop n r xs)

  pub take-take : (m n : ℕ) (xs : List A) → m ≤ n → take m (take n xs) ≡ take m xs
  take-take zero n xs h = refl
  take-take (suc m) zero xs h = absurd (omega arith)
  take-take (suc m) (suc n) [] h = refl
  take-take (suc m) (suc n) (x ∷ xs) h = ap (◌∷◌ x) (take-take m n xs (omega arith))

  pub drop-take : (m k : ℕ) (xs : List A) → drop m (take (m + k) xs) ≡ take k (drop m xs)
  drop-take zero k xs = let e : 0 + k ≡ k = omega arith in rw e
  drop-take (suc m) zero [] = let e : suc m + 0 ≡ suc m = omega arith in rw e
  drop-take (suc m) (suc k) [] = let e : suc m + suc k ≡ suc (m + suc k) = omega arith in rw e
  drop-take (suc m) k (x ∷ xs) =
      let e : suc m + k ≡ suc (m + k) = omega arith in rw e (drop-take m k xs)

  pub take-append_left : (xs ys : List A) → take (length xs) (xs ++ ys) ≡ xs
  take-append_left [] ys = refl
  take-append_left (x ∷ xs) ys = ap (◌∷◌ x) (take-append_left xs ys)

  pub drop-append_left : (xs ys : List A) → drop (length xs) (xs ++ ys) ≡ ys
  drop-append_left [] ys = refl
  drop-append_left (x ∷ xs) ys = drop-append_left xs ys

  pub take-append-drop : (n : ℕ) (xs : List A) → take n xs ++ drop n xs ≡ xs
  take-append-drop zero xs = refl
  take-append-drop (suc n) [] = refl
  take-append-drop (suc n) (x ∷ xs) = ap (◌∷◌ x) (take-append-drop n xs)

  -- What is cut off does not matter to what is stored in front of it.
  pub take-overwrite_swap :
      (n : ℕ) (xs : List A) (i : ℕ) (ys : List A)
      → take n (overwrite xs i ys) ≡ overwrite (take n xs) i ys
  take-overwrite_swap zero [] i ys = refl
  take-overwrite_swap zero (x ∷ xs) i ys = refl
  take-overwrite_swap (suc n) [] i ys = refl
  take-overwrite_swap (suc n) (x ∷ xs) zero [] = refl
  take-overwrite_swap (suc n) (x ∷ xs) zero (y ∷ ys) = ap (◌∷◌ y) (take-overwrite_swap n xs zero ys)
  take-overwrite_swap (suc n) (x ∷ xs) (suc i) ys = ap (◌∷◌ x) (take-overwrite_swap n xs i ys)

  pub take-append_add : (xs ys : List A) (j : ℕ) → take (length xs + j) (xs ++ ys) ≡ xs ++ take j ys
  take-append_add [] ys j = let e : 0 + j ≡ j = omega arith in rw e
  take-append_add (x ∷ xs) ys j =
      let e : suc (length xs) + j ≡ suc (length xs + j) = omega arith in
      rw e (ap (◌∷◌ x) (take-append_add xs ys j))
