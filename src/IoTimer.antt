-- ===== src/IoTimer.antt =====
-- The timer: src/IOTimer.cpp.
--
-- What libuv answers is `uv`, what it is told is the list `calls`. A timer's task and its close
-- callback are known by a number, `none` is an empty function; `client` is what a callback does, and
-- `told` lists the callbacks that were called. `on_timer` and `on_close` are also what libuv calls.
pub mod Lifecycle
mod Tests
use sdpf.Prelude.{
  ℕ, Bool, true, false, not, Option, none, some, List, [], ◌∷◌, ◌++◌, ℤ, pos, neg, is_zero,
  if◌then◌else◌,
}
use sdpf.IoScheduler.{IoSchedulerImp}
use sdpf.IoScheduler.Hosted.{Host, no_context, dispatch_task, failed_with}

-- The tasks that the timer posts: `on_start` and `on_stop`, bound.
pub data Task : Type 0 where
  starts : Option ℕ → ℕ → ℕ → Task
  stops : Option ℕ → Task

pub data UvCall : Type 0 where
  timer_init unref timer_stop close_handle : UvCall
  timer_start : ℕ → ℕ → UvCall

-- The answers that decide something; those of the other calls are only logged.
pub data UvQuery : Type 0 where
  ask_init ask_start ask_active ask_closing : UvQuery

pub data Notice : Type 0 where
  fired closed : ℕ → Notice

pub record IoTimerImp : Type 0 where
  pub context : Option (IoSchedulerImp Task)
  pub active : Bool
  pub cb : Option ℕ
  pub timeout : ℕ
  pub repeat : ℕ
  pub close_cb : Option ℕ

pub record World : Type 0 where
  pub timer : IoTimerImp
  pub calls : List UvCall
  pub told : List Notice

unfoldable pub create : Option (IoSchedulerImp Task) → IoTimerImp
create pctx = record {
  context = pctx;
  active = false;
  cb = none;
  timeout = 0;
  repeat = 0;
  close_cb = none;
}

abbrev pub call : UvCall → World → World
call c w = record w { calls = w.calls ++ (c ∷ []) }

abbrev pub set_active : Bool → World → World
set_active b w = record w { timer = record w.timer { active = b } }

module _ (uv : UvQuery → World → ℤ) (client : Notice → World → World) where
  abbrev pub tell : Notice → World → World
  tell n w = client n (record w { told = w.told ++ (n ∷ []) })

  unfoldable pub on_timer : World → World
  on_timer w = elim w.timer.cb [ none ↦ w | some f ↦ tell (fired f) w ]

  unfoldable pub on_close : World → World
  on_close w = elim w.timer.close_cb [ none ↦ w | some f ↦ tell (closed f) w ]

  unfoldable pub on_stop : Option ℕ → World → World
  on_stop cb w =
      if not w.timer.active
      then w
      else let off = record w { timer = record w.timer { active = false; close_cb = cb } } in
        let quiet = if is_zero (uv ask_active off) then off else call timer_stop off in
        if is_zero (uv ask_closing quiet) then call close_handle quiet else on_close quiet

  unfoldable pub on_start : Option ℕ → ℕ → ℕ → World → World
  on_start cb timeout repeat w =
      if w.timer.active
      then w
      else let on = call timer_init (record w {
        timer = record w.timer { active = true; cb = cb; timeout = timeout; repeat = repeat };
      }) in
        if not (is_zero (uv ask_init on))
        then on_stop none on
        else let started = call (timer_start timeout repeat) (call unref on) in
          if not (is_zero (uv ask_start started)) then on_stop none started else started

  abbrev pub host : Host Task World
  host = record {
    context = λ w. w.timer.context;
    keep = λ sch w. record w { timer = record w.timer { context = some sch } };
    run_task = λ t w. elim t [
      | starts cb timeout repeat ↦ some (on_start cb timeout repeat w)
      | stops cb ↦ some (on_stop cb w)
    ];
  }

  unfoldable pub start : ℕ → ℤ → Option ℕ → ℕ → ℕ → World → Option (ℤ × World)
  start me send_ret cb timeout repeat w =
      if no_context host w
      then some (neg 1, w)
      else if w.timer.active
      then some (neg 2, w)
      else failed_with host (neg 3) (dispatch_task host me send_ret (starts cb timeout repeat) w)

  unfoldable pub stop : ℕ → ℤ → Option ℕ → World → Option (ℤ × World)
  stop me send_ret cb w =
      if no_context host w
      then some (neg 1, w)
      else if not w.timer.active
      then some (neg 2, w)
      else failed_with host (neg 3) (dispatch_task host me send_ret (stops cb) w)
