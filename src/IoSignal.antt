-- ===== src/IoSignal.antt =====
-- The signal handler: src/IOSignal.cpp.
--
-- What libuv answers is `uv`, what it is told is the list `calls`. A signal's task and its
-- close callback are known by a number, `none` is an empty function; `client` is what a callback
-- does, and `told` lists the callbacks that were called. `on_signal` and `on_close` are also what
-- libuv calls.
pub mod Lifecycle
mod Tests
use sdpf.Prelude.{
  ℕ, Bool, true, false, not, Option, none, some, List, [], ◌∷◌, ◌++◌, ℤ, pos, neg, is_zero,
  if◌then◌else◌,
}
use sdpf.IoScheduler.{IoSchedulerImp}
use sdpf.IoScheduler.Hosted.{Host, no_context, dispatch_task, failed_with}

-- The tasks that the handler posts: `on_start` and `on_stop`, bound.
pub data Task : Type 0 where
  starts : Option ℕ → ℤ → Task
  stops : Option ℕ → Task

pub data UvCall : Type 0 where
  signal_init unref signal_stop close_handle : UvCall
  signal_start : ℤ → UvCall

-- The answers that decide something; those of the other calls are only logged.
pub data UvQuery : Type 0 where
  ask_init ask_start ask_active ask_closing : UvQuery

pub data Notice : Type 0 where
  signalled : ℕ → ℤ → Notice
  closed : ℕ → Notice

pub record IoSignalImp : Type 0 where
  pub context : Option (IoSchedulerImp Task)
  pub active : Bool
  pub cb : Option ℕ
  pub signum : ℤ
  pub close_cb : Option ℕ

pub record World : Type 0 where
  pub signal : IoSignalImp
  pub calls : List UvCall
  pub told : List Notice

unfoldable pub create : Option (IoSchedulerImp Task) → IoSignalImp
create pctx = record { context = pctx; active = false; cb = none; signum = pos 0; close_cb = none }

abbrev pub call : UvCall → World → World
call c w = record w { calls = w.calls ++ (c ∷ []) }

abbrev pub set_active : Bool → World → World
set_active b w = record w { signal = record w.signal { active = b } }

module _ (uv : UvQuery → World → ℤ) (client : Notice → World → World) where
  abbrev pub tell : Notice → World → World
  tell n w = client n (record w { told = w.told ++ (n ∷ []) })

  unfoldable pub on_signal : ℤ → World → World
  on_signal n w = elim w.signal.cb [ none ↦ w | some f ↦ tell (signalled f n) w ]

  unfoldable pub on_close : World → World
  on_close w = elim w.signal.close_cb [ none ↦ w | some f ↦ tell (closed f) w ]

  unfoldable pub on_stop : Option ℕ → World → World
  on_stop cb w =
      if not w.signal.active
      then w
      else let off = record w { signal = record w.signal { active = false; close_cb = cb } } in
        let quiet = if is_zero (uv ask_active off) then off else call signal_stop off in
        if is_zero (uv ask_closing quiet) then call close_handle quiet else on_close quiet

  unfoldable pub on_start : Option ℕ → ℤ → World → World
  on_start cb signum w =
      if w.signal.active
      then w
      else let on =
          call signal_init
            (record w { signal = record w.signal { active = true; cb = cb; signum = signum } }) in
        if not (is_zero (uv ask_init on))
        then on_stop none on
        else let started = call (signal_start on.signal.signum) (call unref on) in
          if not (is_zero (uv ask_start started)) then on_stop none started else started

  abbrev pub host : Host Task World
  host = record {
    context = λ w. w.signal.context;
    keep = λ sch w. record w { signal = record w.signal { context = some sch } };
    run_task = λ t w. elim t [
      | starts cb signum ↦ some (on_start cb signum w)
      | stops cb ↦ some (on_stop cb w)
    ];
  }

  unfoldable pub start : ℕ → ℤ → Option ℕ → ℤ → World → Option (ℤ × World)
  start me send_ret cb signum w =
      if no_context host w
      then some (neg 1, w)
      else if w.signal.active
      then some (neg 2, w)
      else failed_with host (neg 3) (dispatch_task host me send_ret (starts cb signum) w)

  unfoldable pub stop : ℕ → ℤ → Option ℕ → World → Option (ℤ × World)
  stop me send_ret cb w =
      if no_context host w
      then some (neg 1, w)
      else if not w.signal.active
      then some (neg 2, w)
      else failed_with host (neg 3) (dispatch_task host me send_ret (stops cb) w)
