-- ===== src/ThreadPool/Draining.antt =====
-- A worker of src/ThreadPool.cpp that goes on: every queued task is called, in order.
use sdpf.Prelude.{
  ℕ, ◌+◌, ◌≡◌, sym, ap, ◌∙◌, false, Option, none, some, List, [], ◌∷◌, ◌++◌, append_assoc,
  append-nil, length, suc, zero, arith,
}
use sdpf.BlockingQueue.{pop}
use sdpf.ThreadPool.{ThreadPoolImp, Worker, looping, busy, run_step, step_at, turn}

module _ {Task : Type 0} where
  -- The worker with this index takes `n` steps, one behind the other.
  unfoldable pub turns : ℕ → ℕ → ThreadPoolImp Task → ThreadPoolImp Task
  turns i zero p = p
  turns i (suc n) p = turns i n (turn i p)

  -- The worker with this index stands at `pop`.
  abbrev pub IsLooping : ℕ → List (Worker Task) → Type 0
  IsLooping i [] = ⊥
  IsLooping zero (w ∷ ws) = w ≡ looping
  IsLooping (suc i) (w ∷ ws) = IsLooping i ws

  -- The tasks of a queue that can be called.
  abbrev pub callable : List (Option Task) → List Task
  callable [] = []
  callable (none ∷ ts) = callable ts
  callable (some t ∷ ts) = t ∷ callable ts

  abbrev called : Option Task → List Task
  called none = []
  called (some t) = t ∷ []

  -- Two steps at the worker's index: it takes the first task and calls it.
  two_steps :
      (i : ℕ) (ws : List (Worker Task)) (t : Option Task) (ts : List (Option Task)) (m : ℕ)
      → IsLooping i ws
      → (ws' : List (Worker Task)) × (step_at i ws
            (record { queue = t ∷ ts; max_count = m; exiting = false })
          ≡ (ws', record { queue = ts; max_count = m; exiting = false }, []))
        × (step_at i ws' (record { queue = ts; max_count = m; exiting = false })
            ≡ (ws, record { queue = ts; max_count = m; exiting = false }, called t))
  unfolding step_at run_step pop
  two_steps zero (w ∷ ws) none ts m h = (
    busy none ∷ ws,
    rw h,
    ap (λ x. (x ∷ ws, record { queue = ts; max_count = m; exiting = false }, [])) (sym h),
  )
  two_steps zero (w ∷ ws) (some t) ts m h = (
    busy (some t) ∷ ws,
    rw h,
    ap (λ x. (x ∷ ws, record { queue = ts; max_count = m; exiting = false }, t ∷ [])) (sym h),
  )
  two_steps zero [] t ts m h = elim h [ ]
  two_steps (suc i) [] t ts m h = elim h [ ]
  two_steps (suc i) (w ∷ ws) t ts m h =
      let (ws', e, e') = two_steps i ws t ts m h in
      (w ∷ ws', ap (λ r. (w ∷ r.0, r.1, r.2)) e, ap (λ r. (w ∷ r.0, r.1, r.2)) e')

  abbrev pool : List (Worker Task) → List (Option Task) → ℕ → List Task → ThreadPoolImp Task
  pool ws ts m ran = record {
    threads = ws;
    tasks = record { queue = ts; max_count = m; exiting = false };
    ran = ran;
  }

  two_turns :
      (i : ℕ) (ws : List (Worker Task)) (t : Option Task) (ts : List (Option Task)) (m : ℕ)
      (ran : List Task)
      → IsLooping i ws
      → turn i (turn i (pool ws (t ∷ ts) m ran)) ≡ pool ws ts m (ran ++ called t)
  unfolding turn
  two_turns i ws t ts m ran h =
      let (ws', e, e') = two_steps i ws t ts m h in
      ap (λ r. turn i (record { threads = r.0; tasks = r.1; ran = ran ++ r.2 })) e
      ∙ ap (λ l. turn i (pool ws' ts m l)) (append-nil ran)
      ∙ ap (λ r. record { threads = r.0; tasks = r.1; ran = ran ++ r.2 }) e'

  drains :
      (i : ℕ) (ws : List (Worker Task)) (ts : List (Option Task)) (m : ℕ) (ran : List Task)
      → IsLooping i ws
      → turns i (length ts + length ts) (pool ws ts m ran) ≡ pool ws [] m (ran ++ callable ts)
  unfolding turns
  drains i ws [] m ran h = ap (pool ws [] m) (sym (append-nil ran))
  drains i ws (t ∷ ts) m ran h =
      let twice : length (t ∷ ts) + length (t ∷ ts) ≡ suc (suc (length ts + length ts)) =
        omega arith in
      ap (λ n. turns i n (pool ws (t ∷ ts) m ran)) twice
      ∙ ap (turns i (length ts + length ts)) (two_turns i ws t ts m ran h)
      ∙ drains i ws ts m (ran ++ called t) h
      ∙ ap (pool ws [] m) (callable-called t)
    where
      callable-called :
          (o : Option Task) → (ran ++ called o) ++ callable ts ≡ ran ++ callable (o ∷ ts)
      callable-called none = ap (λ l. l ++ callable ts) (append-nil ran)
      callable-called (some x) = append_assoc ran (x ∷ []) (callable ts)

  -- A pool that is not stopping, one of whose workers stands at `pop`: twice as many steps of that
  -- worker as tasks are in the queue call them all, once each and in the order of the queue, the empty
  -- ones left out; then the queue is empty and the worker stands at `pop` again.
  pub turns-drain :
      (i : ℕ) (p : ThreadPoolImp Task)
      → p.tasks.exiting ≡ false
      → IsLooping i p.threads
      → turns i (length p.tasks.queue + length p.tasks.queue) p
        ≡ record p { tasks = record p.tasks { queue = [] }; ran = p.ran ++ callable p.tasks.queue }
  turns-drain i p e h =
      ap (turns i (length p.tasks.queue + length p.tasks.queue))
        (λ k. record p { tasks = record p.tasks { exiting = e k } })
      ∙ drains i p.threads p.tasks.queue p.tasks.max_count p.ran h
      ∙ (λ k. record p {
        tasks = record p.tasks { queue = []; exiting = sym e k };
        ran = p.ran ++ callable p.tasks.queue;
      })
