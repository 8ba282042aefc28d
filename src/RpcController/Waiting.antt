-- ===== src/RpcController/Waiting.antt =====
-- No wake-up is lost between the two threads of a call: src/RpcController.cpp.
use sdpf.Prelude.{◌≡◌, refl, sym, subst, ◌⊎◌, inl, inr, Bool, true, false, ℤ, pos, neg}
use sdpf.RpcController.{RpcControllerImp, unlock}
use sdpf.RpcController.Handshake.{
  Caller, outside, holding, sent, waiting, woken, returned, Loop, idle, answering, inside, leaving,
  finished, Shared, wake, Step, take, send, refuse, sleep, enter, leave, signal, resume, expire,
  stray, Reach, here, next,
}

-- Which places of the two threads go together, and whether the mutex is taken.
unfoldable pub fits : Caller → Loop → Bool → Bool
fits outside idle false = true
fits holding idle true = true
fits sent answering true = true
fits waiting answering false = true
fits waiting inside true = true
fits waiting leaving false = true
fits woken finished false = true
fits (returned r) inside true = true
fits (returned r) inside false = false
fits (returned r) l false = true
fits _ _ _ = false

abbrev pub IsFit : Shared → Type 0
IsFit s = fits s.caller s.loop s.ctrl.locked ≡ true

take_fit : (l : Loop) → fits outside l false ≡ true → fits holding l true ≡ true
unfolding fits
take_fit idle h = refl
take_fit answering h = h
take_fit inside h = h
take_fit leaving h = h
take_fit finished h = h

send_fit : (l : Loop) (b : Bool) → fits holding l b ≡ true → fits sent answering b ≡ true
unfolding fits
send_fit idle true h = refl
send_fit idle false h = h
send_fit answering b h = cc
send_fit inside b h = cc
send_fit leaving b h = cc
send_fit finished b h = cc

-- The three ways to the end of a call: the caller leaves the mutex to nobody.
refuse_fit :
    (l : Loop) (b : Bool) → fits holding l b ≡ true → fits (returned (pos 0)) l false ≡ true
unfolding fits
refuse_fit idle b h = refl
refuse_fit answering b h = cc
refuse_fit inside b h = cc
refuse_fit leaving b h = cc
refuse_fit finished b h = cc

return_fit :
    (c : Caller) (l : Loop) (r : ℤ) → fits c l false ≡ true → fits (returned r) l false ≡ true
unfolding fits
return_fit outside inside r h = h
return_fit holding inside r h = h
return_fit sent inside r h = h
return_fit waiting inside r h = h
return_fit woken inside r h = h
return_fit (returned q) inside r h = h
return_fit c idle r h = refl
return_fit c answering r h = refl
return_fit c leaving r h = refl
return_fit c finished r h = refl

sleep_fit : (l : Loop) (b : Bool) → fits sent l b ≡ true → fits waiting l false ≡ true
unfolding fits
sleep_fit answering b h = refl
sleep_fit idle b h = cc
sleep_fit inside b h = cc
sleep_fit leaving b h = cc
sleep_fit finished b h = cc

enter_fit : (c : Caller) → fits c answering false ≡ true → fits c inside true ≡ true
unfolding fits
enter_fit outside h = h
enter_fit holding h = h
enter_fit sent h = h
enter_fit waiting h = refl
enter_fit woken h = h
enter_fit (returned r) h = refl

leave_fit : (c : Caller) (b : Bool) → fits c inside b ≡ true → fits c leaving false ≡ true
unfolding fits
leave_fit waiting b h = refl
leave_fit (returned r) b h = refl
leave_fit outside b h = cc
leave_fit holding b h = cc
leave_fit sent b h = cc
leave_fit woken b h = cc

signal_fit : (c : Caller) (b : Bool) → fits c leaving b ≡ true → fits (wake c) finished b ≡ true
unfolding fits
signal_fit waiting false h = refl
signal_fit waiting true h = h
signal_fit (returned r) false h = refl
signal_fit (returned r) true h = h
signal_fit outside b h = cc
signal_fit holding b h = cc
signal_fit sent b h = cc
signal_fit woken b h = cc

moved :
    {c c' : Caller} {l l' : Loop} {b b' : Bool}
    → c ≡ c'
    → l ≡ l'
    → b ≡ b'
    → fits c l b ≡ true
    → fits c' l' b' ≡ true
moved p q r h = cc

Step-IsFit : {s t : Shared} → Step s t → IsFit s → IsFit t
Step-IsFit {s} (take a b e) h = subst IsFit (sym e) (take_fit s.loop (moved a refl b h))
Step-IsFit {s} (send a e) h =
    subst IsFit (sym e) (send_fit s.loop s.ctrl.locked (moved a refl refl h))
Step-IsFit {s} (refuse a e) h =
    subst IsFit (sym e) (refuse_fit s.loop s.ctrl.locked (moved a refl refl h))
Step-IsFit {s} (sleep a e) h =
    subst IsFit (sym e) (sleep_fit s.loop s.ctrl.locked (moved a refl refl h))
Step-IsFit {s} (enter a b e) h = subst IsFit (sym e) (enter_fit s.caller (moved refl a b h))
Step-IsFit {s} (leave a e) h =
    subst IsFit (sym e) (leave_fit s.caller s.ctrl.locked (moved refl a refl h))
Step-IsFit {s} (signal a e) h =
    subst IsFit (sym e) (signal_fit s.caller s.ctrl.locked (moved refl a refl h))
Step-IsFit {s} (resume a b e) h =
    subst IsFit (sym e) (return_fit s.caller s.loop (pos 0) (moved refl refl b h))
Step-IsFit {s} (expire a b e) h =
    subst IsFit (sym e) (return_fit s.caller s.loop (neg 1) (moved refl refl b h))
Step-IsFit {s} (stray a b e) h =
    subst IsFit (sym e) (return_fit s.caller s.loop (pos 0) (moved refl refl b h))

pub Reach-IsFit : {s t : Shared} → IsFit s → Reach s t → IsFit t
Reach-IsFit h here = h
Reach-IsFit h (next r st) = Step-IsFit st (Reach-IsFit h r)

-- A call without a callback before its first step: nobody has the controller's mutex.
abbrev pub begun : RpcControllerImp → Shared
begun c = record { caller = outside; loop = idle; ctrl = unlock c }

finished_fit :
    (c : Caller) (b : Bool) → fits c finished b ≡ true → (c ≡ woken) ⊎ ((r : ℤ) × (c ≡ returned r))
unfolding fits
finished_fit woken b h = inl refl
finished_fit (returned r) b h = inr (r, refl)
finished_fit outside b h = cc
finished_fit holding b h = cc
finished_fit sent b h = cc
finished_fit waiting b h = cc

-- However the two threads take turns, when the loop is behind its `notify_one` the caller has been
-- woken or has returned: the wake-up never comes before the wait.
pub Reach-woken :
    (c : RpcControllerImp) (s : Shared)
    → Reach (begun c) s
    → s.loop ≡ finished
    → (s.caller ≡ woken) ⊎ ((r : ℤ) × (s.caller ≡ returned r))
unfolding fits
Reach-woken c s r e = finished_fit s.caller s.ctrl.locked (moved refl e refl (Reach-IsFit refl r))
