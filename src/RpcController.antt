-- ===== src/RpcController.antt =====
-- The controller of one call: src/RpcController.cpp.
--
-- A message and a callback are known by a number (an address); `none` is a null pointer, or an empty
-- `std::function`. How the wait on the condition variable ends is an argument.
pub mod Handshake
pub mod Waiting
pub mod Returning
mod Tests
use sdpf.Prelude.{ℕ, Bool, true, false, not, Option, none, List, [], ℤ, pos, neg, is_zero}

pub record RpcControllerImp : Type 0 where
  pub response : Option ℕ
  pub callback : Option ℕ
  pub code : ℤ
  pub message : List ℕ
  pub locked : Bool

unfoldable pub create : RpcControllerImp
create = record { response = none; callback = none; code = pos 0; message = []; locked = false }

-- The setters `resp`, `done`, `ec` and `text`.
abbrev pub resp : RpcControllerImp → Option ℕ → RpcControllerImp
resp c r = record c { response = r }

abbrev pub done : RpcControllerImp → Option ℕ → RpcControllerImp
done c cb = record c { callback = cb }

abbrev pub ec : RpcControllerImp → ℤ → RpcControllerImp
ec c e = record c { code = e }

abbrev pub text : RpcControllerImp → List ℕ → RpcControllerImp
text c str = record c { message = str }

abbrev pub failed : RpcControllerImp → Bool
failed c = not (is_zero c.code)

abbrev pub lock : RpcControllerImp → RpcControllerImp
lock c = record c { locked = true }

abbrev pub unlock : RpcControllerImp → RpcControllerImp
unlock c = record c { locked = false }

-- `wait_for` gives the lock back when it returns, and the destructor of `lk` releases it.
abbrev pub wait : RpcControllerImp → Bool → ℤ × RpcControllerImp
wait c timeout = elim timeout [ true ↦ (neg 1, unlock c) | false ↦ (pos 0, unlock c) ]

-- `notify` takes the lock and gives it back before it wakes the thread that waits.
abbrev pub notify : RpcControllerImp → RpcControllerImp
notify c = unlock (lock c)
