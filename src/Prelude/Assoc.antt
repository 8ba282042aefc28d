-- ===== src/Prelude/Assoc.antt =====
-- Maps from numbers, as association lists.
use Prim.Native.Nat.{ℕ}
use mathlib.Core.Path.{◌≡◌, refl}
use mathlib.Core.Bool.{Bool, true, false}
use mathlib.Core.Option.{Option, none, some}
use mathlib.Core.List.{List, [], ◌∷◌}
use native.Mathlib.Omega.{arith}
use sdpf.Prelude.Tests.{◌==◌, if◌then◌else◌}

module _ {ℓ} {V : Type ℓ} where
  unfoldable pub lookup : ℕ → List (ℕ × V) → Option V
  lookup k [] = none
  lookup k ((j, v) ∷ m) = if j == k then some v else lookup k m

  unfoldable pub erase : ℕ → List (ℕ × V) → List (ℕ × V)
  erase k [] = []
  erase k ((j, v) ∷ m) = if j == k then erase k m else (j, v) ∷ erase k m

  unfoldable pub insert : ℕ → V → List (ℕ × V) → List (ℕ × V)
  insert k v m = (k, v) ∷ erase k m

  pub lookup-erase :
      (k j : ℕ) (m : List (ℕ × V)) → lookup j (erase k m) ≡ (if k == j then none else lookup j m)
  unfolding lookup erase
  lookup-erase k j [] = ground arith
  lookup-erase k j ((i, v) ∷ m) = ground (arith, lookup-erase k j m)

  pub lookup-insert :
      (k j : ℕ) (v : V) (m : List (ℕ × V))
      → lookup j (insert k v m) ≡ (if k == j then some v else lookup j m)
  unfolding insert lookup
  lookup-insert k j v m = ground (arith, lookup-erase k j m)

  -- No key stands twice.
  unfoldable pub is_fresh : ℕ → List (ℕ × V) → Bool
  is_fresh k [] = true
  is_fresh k ((j, v) ∷ m) = if j == k then false else is_fresh k m

  abbrev pub IsMap : List (ℕ × V) → Type 0
  IsMap [] = Unit {0}
  IsMap ((k, v) ∷ m) = (is_fresh k m ≡ true) × IsMap m

  is_fresh-erase :
      (k j : ℕ) (m : List (ℕ × V)) → is_fresh j m ≡ true → is_fresh j (erase k m) ≡ true
  unfolding is_fresh erase
  is_fresh-erase k j [] h = refl
  is_fresh-erase k j ((i, v) ∷ m) h = ground (arith, is_fresh-erase k j m)

  is_fresh-erase_self : (k : ℕ) (m : List (ℕ × V)) → is_fresh k (erase k m) ≡ true
  unfolding is_fresh erase
  is_fresh-erase_self k [] = refl
  is_fresh-erase_self k ((i, v) ∷ m) = ground (arith, is_fresh-erase_self k m)

  pub erase-IsMap : (k : ℕ) (m : List (ℕ × V)) → IsMap m → IsMap (erase k m)
  unfolding erase
  erase-IsMap k [] h = tt
  erase-IsMap k ((i, v) ∷ m) h = ground (arith, erase-IsMap k m h.1, is_fresh-erase k i m h.0)

  pub insert-IsMap : (k : ℕ) (v : V) (m : List (ℕ × V)) → IsMap m → IsMap (insert k v m)
  unfolding insert
  insert-IsMap k v m h = (is_fresh-erase_self k m, erase-IsMap k m h)

  -- Putting in a new key and taking it out again.
  pub erase_fresh : (k : ℕ) (m : List (ℕ × V)) → lookup k m ≡ none → erase k m ≡ m
  unfolding erase lookup
  erase_fresh k [] h = refl
  erase_fresh k ((i, v) ∷ m) h = ground (arith, erase_fresh k m)

  pub erase-insert :
      (k : ℕ) (v : V) (m : List (ℕ × V)) → lookup k m ≡ none → erase k (insert k v m) ≡ m
  unfolding insert erase
  erase-insert k v m h = ground (arith, erase_fresh k m h, erase_fresh k (erase k m))
