-- ===== src/IoTimer/Tests.antt =====
-- The theorem of sdpf.IoTimer at two threads that start the same timer.
use sdpf.Prelude.{◌≡◌, refl, true, false, ℤ, pos, some, none, [], ◌>>=◌}
use sdpf.IoScheduler.{IoSchedulerImp, in_loop_thread}
use sdpf.IoTimer.{World, Notice, Task, starts, UvQuery, create, set_active, host, start}
use sdpf.IoTimer.Lifecycle.{idle, queue, running, start_twice}

abbrev answers : UvQuery → World → ℤ
answers q w = pos 0

abbrev quiet : Notice → World → World
quiet n w = w

-- The loop is thread 1.
abbrev sched : IoSchedulerImp Task
sched = record { init = true; loop_thread_id = some 1; queue_task = [] }

abbrev world : World
world = record { timer = create none; calls = []; told = [] }

two : in_loop_thread sched 2 ≡ false
unfolding in_loop_thread
two = refl

three : in_loop_thread sched 3 ≡ false
unfolding in_loop_thread
three = refl

start_twice_example :
    (start answers quiet 2 (pos 0) (some 7) 10 0 (idle sched world)
      ≡ some (pos 0, idle (queue sched (starts (some 7) 10 0)) world))
    × (start answers quiet 3 (pos 0) (some 8) 20 5 (idle (queue sched (starts (some 7) 10 0)) world)
        ≡ some
            (pos 0, idle (queue (queue sched (starts (some 7) 10 0)) (starts (some 8) 20 5)) world))
    × (((host answers quiet).run_task (starts (some 7) 10 0) (set_active false world)
          >>= (host answers quiet).run_task (starts (some 8) 20 5))
        ≡ some (running (some 7) 10 0 world))
start_twice_example =
    start_twice answers quiet 2 3 sched (some 7) (some 8) 10 0 20 5 world two three (λ v. refl)
      (λ v. refl)
