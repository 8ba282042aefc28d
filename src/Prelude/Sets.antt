-- ===== src/Prelude/Sets.antt =====
-- Finite sets of numbers, as lists in which no element stands twice.
use Prim.Native.Nat.{ℕ}
use mathlib.Core.Path.{◌≡◌}
use mathlib.Core.Bool.{Bool, true, false}
use mathlib.Core.List.{List, [], ◌∷◌}
use native.Mathlib.Omega.{arith}
use sdpf.Prelude.Tests.{◌==◌, if◌then◌else◌}

unfoldable pub has : ℕ → List ℕ → Bool
has c [] = false
has c (x ∷ xs) = if x == c then true else has c xs

unfoldable pub remove : ℕ → List ℕ → List ℕ
remove c [] = []
remove c (x ∷ xs) = if x == c then remove c xs else x ∷ remove c xs

abbrev pub IsDistinct : List ℕ → Type 0
IsDistinct [] = Unit {0}
IsDistinct (x ∷ xs) = (has x xs ≡ false) × IsDistinct xs

pub has-remove :
    (c d : ℕ) (xs : List ℕ) → has d (remove c xs) ≡ (if c == d then false else has d xs)
unfolding has remove
has-remove c d [] = ground arith
has-remove c d (x ∷ xs) = ground (arith, has-remove c d xs)

pub remove-IsDistinct : (c : ℕ) (xs : List ℕ) → IsDistinct xs → IsDistinct (remove c xs)
unfolding remove
remove-IsDistinct c [] h = tt
remove-IsDistinct c (x ∷ xs) h = ground (arith, remove-IsDistinct c xs h.1, has-remove c x xs)
