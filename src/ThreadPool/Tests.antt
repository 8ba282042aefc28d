-- ===== src/ThreadPool/Tests.antt =====
-- The theorems of sdpf.ThreadPool at a pool of two workers.
use sdpf.Prelude.{ℕ, refl, [], ◌∷◌, false, ◌≡◌, arith, some, none, pos}
use sdpf.BlockingQueue.{notify_exit}
use sdpf.ThreadPool.{ThreadPoolImp, looping, busy, stop}
use sdpf.ThreadPool.Workers.{stop_joins}
use sdpf.ThreadPool.Draining.{turns, turns-drain}

-- One worker has task 5 in hand; task 6 is queued.
abbrev pool : ThreadPoolImp ℕ
pool = record {
  threads = busy (some 5) ∷ looping ∷ [];
  tasks = record { queue = some 6 ∷ []; max_count = 0; exiting = false };
  ran = 4 ∷ [];
}

stop_joins_example :
    stop 2 pool
    ≡ some (pos 0, record { threads = []; tasks = notify_exit pool.tasks; ran = 4 ∷ 5 ∷ [] })
stop_joins_example = stop_joins 0 pool (omega arith)

-- Worker 1 alone, with two tasks and an empty one in the queue.
abbrev long : ThreadPoolImp ℕ
long = record pool {
  tasks = record { queue = some 6 ∷ none ∷ some 7 ∷ []; max_count = 0; exiting = false };
}

turns-drain_example : turns 1 6 long ≡ record pool {
  tasks = record { queue = []; max_count = 0; exiting = false };
  ran = 4 ∷ 6 ∷ 7 ∷ [];
}
turns-drain_example = turns-drain 1 long refl refl
