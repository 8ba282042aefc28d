-- ===== src/IoScheduler/Tests.antt =====
-- The theorems of sdpf.IoScheduler on a short history.
use sdpf.Prelude.{ℕ, zero, suc, refl, ◌≡◌, true, false, List, [], ◌∷◌, pos, neg, some, none}
use sdpf.IoScheduler.{IoSchedulerImp, post}
use sdpf.IoScheduler.Fifo.{
  Act, posts, halts, Event, acts, wakes, World, Accounted, step, run_events, run_events-Accounted,
}
use sdpf.IoScheduler.Wakeup.{Shared}

abbrev scheduler : IoSchedulerImp ℕ
scheduler = record { init = true; loop_thread_id = none; queue_task = [] }

-- Task 1 posts task 2 and stops the loop.
abbrev script : ℕ → List (Act ℕ)
script zero = []
script (suc zero) = posts (pos 0) 2 ∷ halts false ∷ []
script (suc (suc n)) = []

abbrev at_start : World script
at_start = (scheduler, record { accepted = []; ran = [] })

abbrev history : List (Event ℕ)
history = acts (posts (pos 0) 1) ∷ acts (posts (neg 1) 3) ∷ wakes ∷ wakes ∷ []

run_events-Accounted_example :
    Accounted script [] (run_events script history at_start)
    × ((step script wakes (run_events script history at_start)).1.ran
        ≡ (run_events script history at_start).1.accepted)
run_events-Accounted_example = run_events-Accounted script history at_start refl

abbrev idle : Shared ℕ
idle = record {
  sch = scheduler;
  senders = 0;
  signalled = false;
  swapping = false;
  posted = [];
  taken = [];
}

-- A thread has queued task 1 and not sent the signal.
abbrev posting : Shared ℕ
posting = record idle { sch = (post scheduler (pos 0) (some 1)).1; senders = 1; posted = 1 ∷ [] }
