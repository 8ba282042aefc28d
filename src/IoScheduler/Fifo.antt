-- ===== src/IoScheduler/Fifo.antt =====
-- Every task that is accepted is queued, and run by the next async callback, in the order of acceptance.
use sdpf.Prelude.{
  ◌≡◌, refl, sym, ap, ◌∙◌, Bool, true, false, some, List, [], ◌∷◌, ◌++◌, ℤ, pos, negsuc, zero, suc,
  arith, if◌then◌else◌, append-nil, append_assoc,
}
use sdpf.IoScheduler.{IoSchedulerImp, post, on_async, run_all, on_stop}

-- What a task or a thread does to the scheduler: it posts, or it runs `on_stop`.
pub data Act (Task : Type 0) : Type 0 where
  posts : ℤ → Task → Act Task
  halts : Bool → Act Task

-- What can happen from outside: a thread acts, or libuv runs the async callback.
pub data Event (Task : Type 0) : Type 0 where
  acts : Act Task → Event Task
  wakes : Event Task

-- The tasks accepted and the tasks run so far, oldest first.
pub record Log (Task : Type 0) : Type 0 where
  pub accepted : List Task
  pub ran : List Task

-- `post` has refused a task if it returned -1; with 0 and with -2 the task is in the queue.
abbrev refused : ℤ → Bool
refused (pos n) = false
refused (negsuc zero) = true
refused (negsuc (suc n)) = false

extend_right {ℓ} :
    {A : Type ℓ} {xs : List A} (ys zs q : List A) (f : A)
    → xs ≡ ys ++ (zs ++ q)
    → xs ++ (f ∷ []) ≡ ys ++ (zs ++ (q ++ (f ∷ [])))
extend_right ys zs q f h =
    ap (λ l. l ++ (f ∷ [])) h
    ∙ append_assoc ys (zs ++ q) (f ∷ [])
    ∙ ap (◌++◌ ys) (append_assoc zs q (f ∷ []))

-- `script f` is what the task `f` does when it runs.
module _ {Task : Type 0} (script : Task → List (Act Task)) where
  abbrev pub World : Type 0
  World = IoSchedulerImp Task × Log Task

  pub act : Act Task → World → World
  act (posts ret f) (sch, l) =
      let (status, sch') = post sch ret (some f) in
      (sch', if refused status then l else record l { accepted = l.accepted ++ (f ∷ []) })
  act (halts closing) (sch, l) = ((on_stop sch closing).1, l)

  pub act_all : List (Act Task) → World → World
  act_all [] w = w
  act_all (a ∷ as') w = act_all as' (act a w)

  pub run_task : Task → World → World
  run_task f (sch, l) = act_all (script f) (sch, record l { ran = l.ran ++ (f ∷ []) })

  pub step : Event Task → World → World
  step (acts a) w = act a w
  step wakes w = on_async run_task w

  pub run_events : List (Event Task) → World → World
  run_events [] w = w
  run_events (e ∷ es) w = run_events es (step e w)

  -- `due` are the tasks that `on_async` has taken out of the queue and not run yet.
  abbrev pub Accounted : List Task → World → Type 0
  Accounted due w = w.1.accepted ≡ w.1.ran ++ (due ++ w.0.queue_task)

  act-Accounted :
      (due : List Task) (a : Act Task) (w : World) → Accounted due w → Accounted due (act a w)
  unfolding act post on_stop
  act-Accounted due (posts ret f) (sch, l) h =
      ground (arith, extend_right l.ran due sch.queue_task f h)
  act-Accounted due (halts closing) (sch, l) h = ground arith

  act_all-Accounted :
      (due : List Task) (as' : List (Act Task)) (w : World)
      → Accounted due w
      → Accounted due (act_all as' w)
  unfolding act_all
  act_all-Accounted due [] w h = h
  act_all-Accounted due (a ∷ as') w h =
      act_all-Accounted due as' (act a w) (act-Accounted due a w h)

  run_all-Accounted :
      (due : List Task) (w : World) → Accounted due w → Accounted [] (run_all run_task due w)
  unfolding run_all run_task
  run_all-Accounted [] w h = h
  run_all-Accounted (f ∷ due) (sch, l) h = run_all-Accounted due _ (
      act_all-Accounted due (script f) _
        (h ∙ sym (append_assoc l.ran (f ∷ []) (due ++ sch.queue_task))))

  step-Accounted : (e : Event Task) (w : World) → Accounted [] w → Accounted [] (step e w)
  unfolding step on_async
  step-Accounted (acts a) w h = act-Accounted [] a w h
  step-Accounted wakes (sch, l) h =
      run_all-Accounted sch.queue_task _ (h ∙ ap (◌++◌ l.ran) (sym (append-nil sch.queue_task)))

  -- A post is no run.
  act-ran : (a : Act Task) (w : World) → (act a w).1.ran ≡ w.1.ran
  unfolding act post on_stop
  act-ran (posts ret f) (sch, l) = ground arith
  act-ran (halts closing) (sch, l) = refl

  act_all-ran : (as' : List (Act Task)) (w : World) → (act_all as' w).1.ran ≡ w.1.ran
  unfolding act_all
  act_all-ran [] w = refl
  act_all-ran (a ∷ as') w = act_all-ran as' (act a w) ∙ act-ran a w

  run_all-ran : (due : List Task) (w : World) → (run_all run_task due w).1.ran ≡ w.1.ran ++ due
  unfolding run_all run_task
  run_all-ran [] (sch, l) = sym (append-nil l.ran)
  run_all-ran (f ∷ due) (sch, l) =
      run_all-ran due _
      ∙ ap (λ r. r ++ due) (act_all-ran (script f) (sch, record l { ran = l.ran ++ (f ∷ []) }))
      ∙ append_assoc l.ran (f ∷ []) due

  wakes-ran : (w : World) → (step wakes w).1.ran ≡ w.1.ran ++ w.0.queue_task
  unfolding step on_async
  wakes-ran (sch, l) = run_all-ran sch.queue_task (record sch { queue_task = [] }, l)

  run_from-Accounted :
      (es : List (Event Task)) (w : World) → Accounted [] w → Accounted [] (run_events es w)
  unfolding run_events
  run_from-Accounted [] w h = h
  run_from-Accounted (e ∷ es) w h = run_from-Accounted es (step e w) (step-Accounted e w h)

  -- If at the beginning the tasks for which `post` did not return -1 are, in order, those that
  -- have run followed by those in the queue, then this is so after every sequence of posts,
  -- wake-ups and stops, whatever tasks the running ones post; and if the loop then calls the async
  -- callback, what has run behind it is exactly what was accepted before it, each task as often as
  -- it was accepted and in that order. (Tasks that are in the queue when `on_stop` has closed the
  -- handle stay there, as no callback comes any more.)
  pub run_events-Accounted :
      (es : List (Event Task)) (w : World)
      → Accounted [] w
      → Accounted [] (run_events es w)
        × ((step wakes (run_events es w)).1.ran ≡ (run_events es w).1.accepted)
  run_events-Accounted es w h =
      let later = run_from-Accounted es w h in (later, wakes-ran (run_events es w) ∙ sym later)
