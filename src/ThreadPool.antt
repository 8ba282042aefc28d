-- ===== src/ThreadPool.antt =====
-- The thread pool: src/ThreadPool.cpp.
--
-- A worker is where its thread stands in `ThreadPoolImp::run`; a step of it is one `pop`, or the task
-- it took. `none` is an empty `std::function`, which is popped and not called. What the tasks do is
-- outside; `ran` lists them in the order in which they are called.
pub mod Workers
pub mod Draining
mod Tests
use sdpf.Prelude.{
  ℕ, ◌+◌, Bool, true, false, Option, none, some, List, [], ◌∷◌, ◌++◌, length, if◌then◌else◌, ℤ, pos,
  neg, ltb, ◌||◌, not, replicate, zero, suc,
}
use sdpf.BlockingQueue.{BlockingQueue, Popped, waits, exits, item, push, pop, notify_exit}
use sdpf.BlockingQueue

-- `looping` is at `pop`, `busy` holds the task it took, `ended` has left the loop.
pub data Worker (Task : Type 0) : Type 0 where
  looping ended : Worker Task
  busy : Option Task → Worker Task

pub record ThreadPoolImp (Task : Type 0) : Type 0 where
  pub threads : List (Worker Task)
  pub tasks : BlockingQueue (Option Task)
  pub ran : List Task

module _ {Task : Type 0} where
  unfoldable pub create : ThreadPoolImp Task
  create = record { threads = []; tasks = BlockingQueue.create; ran = [] }

  unfoldable pub add_thread : ThreadPoolImp Task → ℕ → ℤ × ThreadPoolImp Task
  add_thread p n = (pos 0, record p { threads = p.threads ++ replicate n looping })

  abbrev has_threads : ThreadPoolImp Task → Bool
  has_threads p = ltb 0 (length p.threads)

  -- The parameter `grow` is not used.
  unfoldable pub start : ThreadPoolImp Task → ℕ → ℕ → ℤ × ThreadPoolImp Task
  start p thread_num max_task =
      if ltb thread_num 1 || has_threads p
      then (neg 1, p)
      else add_thread (record p { tasks = (BlockingQueue.init p.tasks max_task).1 }) thread_num

  unfoldable pub append : ThreadPoolImp Task → Option Task → Bool × ThreadPoolImp Task
  append p task = let (ok, q) = push p.tasks task in (ok, record p { tasks = q })

  -- One step of `run`: the worker, the queue and what was called.
  unfoldable pub run_step :
      Worker Task
      → BlockingQueue (Option Task)
      → Worker Task × BlockingQueue (Option Task) × List Task
  run_step looping q =
      let (r, q') = pop q in
      elim r [ waits ↦ (looping, q', []) | exits ↦ (ended, q', []) | item t ↦ (busy t, q', []) ]
  run_step (busy none) q = (looping, q, [])
  run_step (busy (some t)) q = (looping, q, t ∷ [])
  run_step ended q = (ended, q, [])

  -- The worker with this index takes a step.
  unfoldable pub step_at :
      ℕ
      → List (Worker Task)
      → BlockingQueue (Option Task)
      → List (Worker Task) × BlockingQueue (Option Task) × List Task
  step_at i [] q = ([], q, [])
  step_at zero (w ∷ ws) q = let (w', q', r) = run_step w q in (w' ∷ ws, q', r)
  step_at (suc i) (w ∷ ws) q = let (ws', q', r) = step_at i ws q in (w ∷ ws', q', r)

  unfoldable pub turn : ℕ → ThreadPoolImp Task → ThreadPoolImp Task
  turn i p =
      let (ws, q, r) = step_at i p.threads p.tasks in
      record { threads = ws; tasks = q; ran = p.ran ++ r }

  -- `join`: the worker goes on for `fuel` steps at most.
  unfoldable pub join :
      ℕ
      → Worker Task
      → BlockingQueue (Option Task)
      → Worker Task × BlockingQueue (Option Task) × List Task
  join zero w q = (w, q, [])
  join (suc fuel) w q =
      let (w', q', r) = run_step w q in let (w'', q'', r') = join fuel w' q' in (w'', q'', r ++ r')

  -- The loop of `stop`: the threads are joined in order.
  unfoldable pub join_all :
      ℕ
      → List (Worker Task)
      → BlockingQueue (Option Task)
      → List (Worker Task) × BlockingQueue (Option Task) × List Task
  join_all fuel [] q = ([], q, [])
  join_all fuel (w ∷ ws) q =
      let (w', q', r) = join fuel w q in
      let (ws', q'', r') = join_all fuel ws q' in (w' ∷ ws', q'', r ++ r')

  -- A thread that has not ended when `join` runs out of fuel would be waited for for ever.
  unfoldable pub all_ended : List (Worker Task) → Bool
  all_ended [] = true
  all_ended (ended ∷ ws) = all_ended ws
  all_ended (looping ∷ ws) = false
  all_ended (busy t ∷ ws) = false

  unfoldable pub stop : ℕ → ThreadPoolImp Task → Option (ℤ × ThreadPoolImp Task)
  stop fuel p =
      if not (has_threads p)
      then some (neg 1, p)
      else let (ws, q, r) = join_all fuel p.threads (notify_exit p.tasks) in
        if all_ended ws
        then some (pos 0, record { threads = []; tasks = q; ran = p.ran ++ r })
        else none
