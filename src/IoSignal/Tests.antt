-- ===== src/IoSignal/Tests.antt =====
-- The theorem of sdpf.IoSignal at a handler for signal 2.
use sdpf.Prelude.{true, ℤ, pos, some, none, []}
use sdpf.IoScheduler.{IoSchedulerImp}
use sdpf.IoSignal.{World, Notice, Task, UvQuery, create}

abbrev answers : UvQuery → World → ℤ
answers q w = pos 0

abbrev quiet : Notice → World → World
quiet n w = w

-- The loop is thread 1.
abbrev sched : IoSchedulerImp Task
sched = record { init = true; loop_thread_id = some 1; queue_task = [] }

abbrev world : World
world = record { signal = create none; calls = []; told = [] }
