-- ===== src/Prelude/Results.antt =====
-- Signed status codes, and chains of steps that may run into undefined behaviour.
use Prim.Native.Nat.{ℕ, zero, suc, ◌<◌}
use mathlib.Core.Path.{◌≡◌, refl}
use mathlib.Core.Bool.{Bool, true, false}
use mathlib.Core.Option.{Option, none, some}

-- `negsuc n` is -(n + 1).
pub data ℤ : Type 0 where
  pos : ℕ → ℤ
  negsuc : ℕ → ℤ

-- A status code -n.
abbrev pub neg : ℕ → ℤ
neg zero = pos zero
neg (suc n) = negsuc n

abbrev pub is_zero : ℤ → Bool
is_zero (pos zero) = true
is_zero (pos (suc n)) = false
is_zero (negsuc n) = false

-- 0 < x
abbrev pub is_positive : ℤ → Bool
is_positive (pos zero) = false
is_positive (pos (suc n)) = true
is_positive (negsuc n) = false

-- x < 0
abbrev pub is_negative : ℤ → Bool
is_negative (pos n) = false
is_negative (negsuc n) = true

infixl 5 ◌>>=◌
abbrev pub ◌>>=◌ {ℓ κ} : {A : Type ℓ} {B : Type κ} → Option A → (A → Option B) → Option B
none >>= f = none
some a >>= f = f a

pub is_zero→eq : (x : ℤ) → is_zero x ≡ true → x ≡ pos 0
is_zero→eq (pos zero) h = refl
is_zero→eq (pos (suc n)) h = cc
is_zero→eq (negsuc n) h = cc

pub is_positive_pos : (n : ℕ) → 0 < n → is_positive (pos n) ≡ true
is_positive_pos zero h = elim h [ ]
is_positive_pos (suc n) h = refl
