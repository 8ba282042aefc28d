-- ===== src/RpcController/Returning.antt =====
-- The call without a callback never locks up: src/RpcController.cpp.
use sdpf.Prelude.{◌≡◌, refl, ◌⊎◌, inl, inr, Bool, true, false, ℤ, pos}
use sdpf.RpcController.{RpcControllerImp, lock, unlock}
use sdpf.RpcController.Handshake.{
  Caller, outside, holding, sent, waiting, woken, returned, Loop, idle, answering, inside, leaving,
  finished, Shared, Step, take, send, sleep, enter, leave, signal, resume, Reach, here, next,
}
use sdpf.RpcController.Waiting.{fits, begun, Reach-IsFit}

-- The caller can still come back, with 0.
abbrev pub CanReturn : Shared → Type 0
CanReturn s = (u : Shared) × Reach s u × (u.caller ≡ returned (pos 0))

abbrev at : Caller → Loop → RpcControllerImp → Shared
at k l c = record { caller = k; loop = l; ctrl = c }

after : {s t u : Shared} → Step s t → Reach t u → Reach s u
after st here = next here st
after st (next r st') = next (after st r) st'

step_first : {s t : Shared} → Step s t → CanReturn t → CanReturn s
step_first st (u, r, e) = (u, after st r, e)

free :
    (k : Caller) (l : Loop) (b : Bool)
    → fits k l false ≡ true
    → fits k l b ≡ true
    → fits k l true ≡ false
    → b ≡ false
free k l true f h n = cc
free k l false f h n = refl

by_resume : (c : RpcControllerImp) → c.locked ≡ false → CanReturn (at woken finished c)
by_resume c e = step_first (resume refl e refl) (_, here, refl)

by_signal : (c : RpcControllerImp) → c.locked ≡ false → CanReturn (at waiting leaving c)
by_signal c e = step_first (signal refl refl) (by_resume c e)

by_leave : (c : RpcControllerImp) → CanReturn (at waiting inside c)
by_leave c = step_first (leave refl refl) (by_signal (unlock c) refl)

by_enter : (c : RpcControllerImp) → c.locked ≡ false → CanReturn (at waiting answering c)
by_enter c e = step_first (enter refl e refl) (by_leave (lock c))

by_sleep : (c : RpcControllerImp) → CanReturn (at sent answering c)
by_sleep c = step_first (sleep refl refl) (by_enter (unlock c) refl)

by_send : (l : Loop) (c : RpcControllerImp) → CanReturn (at holding l c)
by_send l c = step_first (send refl refl) (by_sleep c)

by_take : (l : Loop) (c : RpcControllerImp) → c.locked ≡ false → CanReturn (at outside l c)
by_take l c e = step_first (take refl e refl) (by_send l (lock c))

fit-CanReturn :
    (k : Caller) (l : Loop) (c : RpcControllerImp)
    → fits k l c.locked ≡ true
    → ((r : ℤ) × (k ≡ returned r)) ⊎ CanReturn (at k l c)
unfolding fits
fit-CanReturn (returned r) l c h = inl (r, refl)
fit-CanReturn outside idle c h = inr (by_take idle c (free outside idle c.locked refl h refl))
fit-CanReturn holding l c h = inr (by_send l c)
fit-CanReturn sent answering c h = inr (by_sleep c)
fit-CanReturn waiting answering c h = inr (by_enter c (free waiting answering c.locked refl h refl))
fit-CanReturn waiting inside c h = inr (by_leave c)
fit-CanReturn waiting leaving c h = inr (by_signal c (free waiting leaving c.locked refl h refl))
fit-CanReturn woken finished c h = inr (by_resume c (free woken finished c.locked refl h refl))
fit-CanReturn outside answering c h = cc
fit-CanReturn outside inside c h = cc
fit-CanReturn outside leaving c h = cc
fit-CanReturn outside finished c h = cc
fit-CanReturn sent idle c h = cc
fit-CanReturn sent inside c h = cc
fit-CanReturn sent leaving c h = cc
fit-CanReturn sent finished c h = cc
fit-CanReturn waiting idle c h = cc
fit-CanReturn waiting finished c h = cc
fit-CanReturn woken idle c h = cc
fit-CanReturn woken answering c h = cc
fit-CanReturn woken inside c h = cc
fit-CanReturn woken leaving c h = cc

-- In every state that the two threads of a call without a callback can come to, the caller has
-- returned, or there are steps of the two threads after which it has returned 0.
pub Reach-CanReturn :
    (c : RpcControllerImp) (s : Shared)
    → Reach (begun c) s
    → ((r : ℤ) × (s.caller ≡ returned r)) ⊎ CanReturn s
unfolding fits
Reach-CanReturn c s r = fit-CanReturn s.caller s.loop s.ctrl (Reach-IsFit refl r)
