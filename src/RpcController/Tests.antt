-- ===== src/RpcController/Tests.antt =====
-- The theorems about waiting at one call: the caller waits, and the loop brings the answer.
use sdpf.Prelude.{◌≡◌, refl, ◌⊎◌, ℤ}
use sdpf.RpcController.{RpcControllerImp, create, lock, unlock}
use sdpf.RpcController.Handshake.{
  Shared, Caller, Loop, waiting, woken, inside, finished, Reach, here, next, take, send, sleep,
  enter, leave, signal, returned,
}
use sdpf.RpcController.Waiting.{begun, Reach-woken}
use sdpf.RpcController.Returning.{CanReturn, Reach-CanReturn}

abbrev ctrl : RpcControllerImp
ctrl = unlock create

abbrev at : Caller → Loop → RpcControllerImp → Shared
at k l c = record { caller = k; loop = l; ctrl = c }

-- The loop is inside `notify` while the caller waits.
entered : Reach (begun create) (at waiting inside (lock ctrl))
entered =
    next (next (next (next here (take refl refl refl)) (send refl refl)) (sleep refl refl))
      (enter refl refl refl)

told : Reach (begun create) (at woken finished ctrl)
told = next (next entered (leave refl refl)) (signal refl refl)

Reach-woken_example : (woken ≡ woken) ⊎ ((r : ℤ) × (woken ≡ returned r))
Reach-woken_example = Reach-woken create (at woken finished ctrl) told refl

Reach-CanReturn_example :
    ((r : ℤ) × (waiting ≡ returned r)) ⊎ CanReturn (at waiting inside (lock ctrl))
Reach-CanReturn_example = Reach-CanReturn create (at waiting inside (lock ctrl)) entered
