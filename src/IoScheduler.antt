-- ===== src/IoScheduler.antt =====
-- The event loop's task queue: src/IOScheduler.cpp.
--
-- A task (`std::function<void()>`) is a value of any type `Task`; `none` is an empty function.
-- Threads are numbers, and the default `std::thread::id()` is `none`. What libuv answers is an
-- argument of the operation that asks, and what it is told is the list of `UvCall`s.
pub mod Fifo
pub mod Wakeup
pub mod Hosted
mod Tests
use sdpf.Prelude.{
  ℕ, Bool, true, false, not, ◌||◌, Option, none, some, List, [], ◌∷◌, ◌++◌, ℤ, pos, neg, is_zero,
  if◌then◌else◌, ◌==◌,
}

pub record IoSchedulerImp (Task : Type 0) : Type 0 where
  pub init : Bool
  pub loop_thread_id : Option ℕ
  pub queue_task : List Task

pub data UvCall : Type 0 where
  loop_close async_close loop_stop : UvCall

abbrev pub is_none {ℓ} : {A : Type ℓ} → Option A → Bool
is_none none = true
is_none (some a) = false

-- `IOSchedulerImp::on_close`
unfoldable pub on_close : List UvCall
on_close = loop_stop ∷ []

module _ {Task : Type 0} where
  -- `IOSchedulerImp::IOSchedulerImp`
  unfoldable pub create : IoSchedulerImp Task
  create = record { init = false; loop_thread_id = none; queue_task = [] }

  -- `uv_loop_init` and `uv_async_init` answer with the two codes.
  unfoldable pub init : IoSchedulerImp Task → ℤ → ℤ → ℤ × List UvCall × IoSchedulerImp Task
  init sch loop_ret async_ret =
      if sch.init
      then (neg 1, [], sch)
      else if not (is_zero loop_ret)
      then (neg 2, [], sch)
      else if not (is_zero async_ret)
      then (neg 3, loop_close ∷ [], sch)
      else (pos 0, [], record sch { init = true; loop_thread_id = none })

  -- `uv_run` is what the loop does until it ends, callbacks included.
  unfoldable pub run :
      (IoSchedulerImp Task → IoSchedulerImp Task)
      → IoSchedulerImp Task
      → ℕ
      → ℤ × List UvCall × IoSchedulerImp Task
  run uv_run sch me = if not sch.init then (neg 1, [], sch) else (
    pos 0,
    loop_close ∷ [],
    record (uv_run (record sch { loop_thread_id = some me })) {
      init = false;
      loop_thread_id = none;
    },
  )

  unfoldable pub post : IoSchedulerImp Task → ℤ → Option Task → ℤ × IoSchedulerImp Task
  post sch send_ret none = (neg 1, sch)
  post sch send_ret (some f) =
      if not sch.init
      then (neg 1, sch)
      else let sch' = record sch { queue_task = sch.queue_task ++ (f ∷ []) } in
        if not (is_zero send_ret) then (neg 2, sch') else (pos 0, sch')

  unfoldable pub in_loop_thread : IoSchedulerImp Task → ℕ → Bool
  in_loop_thread sch me = elim sch.loop_thread_id [ none ↦ false | some t ↦ t == me ]

  -- The status, the task that the caller runs at once (`f()`), and the scheduler.
  unfoldable pub dispatch :
      IoSchedulerImp Task → ℕ → ℤ → Option Task → ℤ × Option Task × IoSchedulerImp Task
  dispatch sch me send_ret f =
      if is_none f || not sch.init
      then (neg 1, none, sch)
      else if in_loop_thread sch me
      then (pos 0, f, sch)
      else let (ret, sch') = post sch send_ret f in (ret, none, sch')

  unfoldable pub is_init : IoSchedulerImp Task → Bool
  is_init sch = sch.init

  -- `stop` dispatches `on_stop`, which is the task `stop_task`.
  unfoldable pub stop : IoSchedulerImp Task → ℕ → ℤ → Task → Option Task × IoSchedulerImp Task
  stop sch me send_ret stop_task =
      if sch.init
      then (let (ret, now, sch') = dispatch sch me send_ret (some stop_task) in (now, sch'))
      else (none, sch)

  -- The flag is the answer of `uv_is_closing`.
  unfoldable pub on_stop : IoSchedulerImp Task → Bool → List UvCall × IoSchedulerImp Task
  on_stop sch closing =
      if not sch.init
      then ([], sch)
      else let sch' = record sch { init = false } in
        if not closing then (async_close ∷ [], sch') else (on_close, sch')

  -- Tasks run with the whole world `W` in hand, of which the scheduler is a part.
  module _ {W : Type 0} (run_task : Task → IoSchedulerImp Task × W → IoSchedulerImp Task × W) where
    unfoldable pub run_all : List Task → IoSchedulerImp Task × W → IoSchedulerImp Task × W
    run_all [] w = w
    run_all (f ∷ fs) w = run_all fs (run_task f w)

    unfoldable pub on_async : IoSchedulerImp Task × W → IoSchedulerImp Task × W
    on_async (sch, w) = run_all sch.queue_task (record sch { queue_task = [] }, w)
