-- ===== src/ThreadPool/Workers.antt =====
-- What the workers run, and that they end.
use sdpf.Prelude.{
  ℕ, ◌≡◌, ◌<◌, refl, ap, ◌∙◌, true, Option, none, some, List, [], ◌∷◌, ◌++◌, length, if◌then◌else◌,
  ℤ, pos, neg, suc, zero, not, lt→ltb,
}
use sdpf.BlockingQueue.{BlockingQueue, pop, notify_exit}
use sdpf.ThreadPool.{
  ThreadPoolImp, Worker, looping, busy, ended, run_step, join, join_all, all_ended, stop,
}

module _ {Task : Type 0} where
  -- The task that a worker has taken and not called yet.
  abbrev pub held : Worker Task → List Task
  held looping = []
  held ended = []
  held (busy none) = []
  held (busy (some t)) = t ∷ []

  abbrev pub all_held : List (Worker Task) → List Task
  all_held [] = []
  all_held (w ∷ ws) = held w ++ all_held ws

  abbrev exit_queue : BlockingQueue (Option Task) → BlockingQueue (Option Task)
  exit_queue q = record q { exiting = true }

  join_ended : (fuel : ℕ) (q : BlockingQueue (Option Task)) → join fuel ended q ≡ (ended, q, [])
  unfolding join run_step
  join_ended zero q = refl
  join_ended (suc fuel) q = ap (λ r. (r.0, r.1, r.2)) (join_ended fuel q)

  join_looping :
      (fuel : ℕ) (q : BlockingQueue (Option Task))
      → join (suc fuel) looping (exit_queue q) ≡ (ended, exit_queue q, [])
  unfolding join run_step pop
  join_looping fuel q = ap (λ r. (r.0, r.1, r.2)) (join_ended fuel (exit_queue q))

  -- Two steps are enough: the task in hand, and the `pop` that ends the loop.
  join_lem :
      (fuel : ℕ) (w : Worker Task) (q : BlockingQueue (Option Task))
      → join (suc (suc fuel)) w (exit_queue q) ≡ (ended, exit_queue q, held w)
  unfolding join run_step
  join_lem fuel looping q = join_looping (suc fuel) q
  join_lem fuel ended q = join_ended (suc (suc fuel)) (exit_queue q)
  join_lem fuel (busy none) q = ap (λ r. (r.0, r.1, r.2)) (join_looping fuel q)
  join_lem fuel (busy (some t)) q = ap (λ r. (r.0, r.1, t ∷ r.2)) (join_looping fuel q)

  join_all_lem :
      (fuel : ℕ) (ws : List (Worker Task)) (q : BlockingQueue (Option Task))
      → (ws' : List (Worker Task)) × (join_all (suc (suc fuel)) ws (exit_queue q)
          ≡ (ws', exit_queue q, all_held ws))
        × (all_ended ws' ≡ true)
  unfolding join_all all_ended
  join_all_lem fuel [] q = ([], refl, refl)
  join_all_lem fuel (w ∷ ws) q =
      let (ws', e, d) = join_all_lem fuel ws q in
      (
        ended ∷ ws',
        ap
              (λ s.
                let (w', q', r) = s in
                let (ws1, q'', r') = join_all (suc (suc fuel)) ws q' in (w' ∷ ws1, q'', r ++ r'))
              (join_lem fuel w q)
            ∙ ap (λ s. let (ws1, q'', r') = s in (ended ∷ ws1, q'', held w ++ r')) e,
        d,
      )

  -- `stop` of a pool that has threads returns 0: no join waits for ever, since two steps of each
  -- worker are enough. The tasks that the workers had taken are called, those still in the queue
  -- are not, and no thread is left.
  pub stop_joins :
      (fuel : ℕ) (p : ThreadPoolImp Task)
      → 0 < length p.threads
      → stop (suc (suc fuel)) p
        ≡ some (
          pos 0,
          record { threads = []; tasks = notify_exit p.tasks; ran = p.ran ++ all_held p.threads },
        )
  unfolding stop notify_exit
  stop_joins fuel p h =
      let (ws, e, d) = join_all_lem fuel p.threads p.tasks in
      ap
        (λ b.
          if not b
          then some (neg 1, p)
          else finish (join_all (suc (suc fuel)) p.threads (exit_queue p.tasks)))
        (lt→ltb 0 (length p.threads) h)
      ∙ ap finish e
      ∙ ap
          (λ b.
            if b
            then some (
              pos 0,
              record {
                threads = [];
                tasks = exit_queue p.tasks;
                ran = p.ran ++ all_held p.threads;
              },
            )
            else none)
          d
    where
      finish :
          List (Worker Task) × BlockingQueue (Option Task) × List Task
          → Option (ℤ × ThreadPoolImp Task)
      finish s =
          let (ws, q, r) = s in
          if all_ended ws
          then some (pos 0, record { threads = []; tasks = q; ran = p.ran ++ r })
          else none
