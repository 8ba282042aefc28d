-- ===== src/IoTimer/Lifecycle.antt =====
-- Starting twice, stopping, and starting again before the handle is closed.
use sdpf.Prelude.{
  ℕ, ◌≡◌, refl, sym, ap, ◌∙◌, true, false, Option, none, some, List, [], ◌∷◌, ◌++◌, append_assoc,
  append-nil, ◌⊎◌, ℤ, pos, neg, is_zero, if◌then◌else◌, Bool-cases, inl, inr, ◌>>=◌,
}
use sdpf.IoScheduler.{IoSchedulerImp, in_loop_thread}
use sdpf.IoScheduler.Hosted.{has_context, dispatch_away, dispatch_task, failed_with}
use sdpf.IoTimer.{
  World, Task, starts, UvCall, timer_init, unref, timer_start, timer_stop, close_handle, UvQuery,
  ask_init, ask_start, ask_active, ask_closing, Notice, closed, call, set_active, on_close, on_stop,
  on_start, host, start,
}

-- A timer that is off, in a scheduler that is initialised.
abbrev pub idle : IoSchedulerImp Task → World → World
idle sch w = record w {
  timer = record w.timer { context = some (record sch { init = true }); active = false };
}

abbrev pub queue : IoSchedulerImp Task → Task → IoSchedulerImp Task
queue sch t = record sch { queue_task = sch.queue_task ++ (t ∷ []) }

-- The timer runs with this task.
abbrev pub running : Option ℕ → ℕ → ℕ → World → World
running cb timeout repeat w = record w {
  timer = record w.timer { active = true; cb = cb; timeout = timeout; repeat = repeat };
  calls = ((w.calls ++ (timer_init ∷ [])) ++ (unref ∷ [])) ++ (timer_start timeout repeat ∷ []);
}

-- libuv refuses to initialise the handle, or to start it.
abbrev pub IsRefused : (UvQuery → World → ℤ) → ℤ → Type 0
IsRefused uv code =
    ((v : World) → uv ask_init v ≡ code)
    ⊎ (((v : World) → uv ask_init v ≡ pos 0) × ((v : World) → uv ask_start v ≡ code))

-- What the close callback amounts to.
abbrev pub notices : Option ℕ → List Notice
notices none = []
notices (some f) = closed f ∷ []

module _ (uv : UvQuery → World → ℤ) (client : Notice → World → World) where
  start_posts :
      (me : ℕ) (sch : IoSchedulerImp Task) (cb : Option ℕ) (timeout repeat : ℕ) (w : World)
      → in_loop_thread sch me ≡ false
      → start uv client me (pos 0) cb timeout repeat (idle sch w)
        ≡ some (pos 0, idle (queue sch (starts cb timeout repeat)) w)
  unfolding start
  start_posts me sch cb timeout repeat w away =
      let t = starts cb timeout repeat in
      let v = idle sch w in
      let h = host uv client in
      ap
        (λ b. if b then some (neg 1, v) else failed_with h (neg 3) (dispatch_task h me (pos 0) t v))
        (has_context h me sch t v refl)
      ∙ ap (failed_with h (neg 3)) (dispatch_away h me sch t v refl away)

  start_runs :
      (cb : Option ℕ) (timeout repeat : ℕ) (w : World)
      → ((v : World) → uv ask_init v ≡ pos 0)
      → ((v : World) → uv ask_start v ≡ pos 0)
      → on_start uv client cb timeout repeat (set_active false w) ≡ running cb timeout repeat w
  unfolding on_start
  start_runs cb timeout repeat w i s =
      let on = call timer_init (record w {
        timer = record w.timer { active = true; cb = cb; timeout = timeout; repeat = repeat };
      }) in
      rw (i on) (rw (s (running cb timeout repeat w)) refl)

  on_start_again :
      (f : Option ℕ) (t r : ℕ) (v : World)
      → on_start uv client f t r (set_active true v) ≡ set_active true v
  unfolding on_start
  on_start_again f t r v = refl

  -- Two threads that call `start` on a timer that is off, before the loop has run, are both told 0;
  -- when the loop runs the two tasks, only the first starts the timer, and the other's task,
  -- timeout and period are dropped. (The scheduler is initialised, neither thread is the loop's,
  -- and libuv accepts the timer.)
  pub start_twice :
      (me you : ℕ) (sch : IoSchedulerImp Task) (cb cb' : Option ℕ)
      (timeout repeat timeout' repeat' : ℕ) (w : World)
      → in_loop_thread sch me ≡ false
      → in_loop_thread sch you ≡ false
      → ((v : World) → uv ask_init v ≡ pos 0)
      → ((v : World) → uv ask_start v ≡ pos 0)
      → (start uv client me (pos 0) cb timeout repeat (idle sch w)
          ≡ some (pos 0, idle (queue sch (starts cb timeout repeat)) w))
        × (start uv client you
              (pos 0)
              cb'
              timeout'
              repeat'
              (idle (queue sch (starts cb timeout repeat)) w)
            ≡ some (
              pos 0,
              idle (queue (queue sch (starts cb timeout repeat)) (starts cb' timeout' repeat')) w,
            ))
        × (((host uv client).run_task (starts cb timeout repeat) (set_active false w)
              >>= (host uv client).run_task (starts cb' timeout' repeat'))
            ≡ some (running cb timeout repeat w))
  unfolding in_loop_thread
  start_twice me you sch cb cb' timeout repeat timeout' repeat' w away away' i s = (
    start_posts me sch cb timeout repeat w away,
    start_posts you (queue sch (starts cb timeout repeat)) cb' timeout' repeat' w away',
    ap (λ v. some (on_start uv client cb' timeout' repeat' v)) (start_runs cb timeout repeat w i s)
        ∙ ap some (on_start_again cb' timeout' repeat' (running cb timeout repeat w)),
  )

  stop_lem :
      (cb : Option ℕ) (w : World)
      → ((v : World) → uv ask_closing v ≡ pos 0)
      → (cs : List UvCall) × (on_stop uv client cb (set_active true w) ≡ record w {
        timer = record w.timer { active = false; close_cb = cb };
        calls = cs ++ (close_handle ∷ []);
      })
  unfolding on_stop
  stop_lem cb w c =
      let off = record w { timer = record w.timer { active = false; close_cb = cb } } in
      elim (Bool-cases (is_zero (uv ask_active off))) [
        | inl q ↦ (w.calls, rw (q, c off) refl)
        | inr q ↦ (w.calls ++ (timer_stop ∷ []), rw (q, c (call timer_stop off)) refl)
      ]

  -- `stop` and `start` in the loop's thread, one behind the other: `uv_timer_init` is called on the
  -- handle while its `uv_close` is pending, since no callback has been called in between.
  pub stop_then_start :
      (c cb : Option ℕ) (timeout repeat : ℕ) (w : World)
      → ((v : World) → uv ask_init v ≡ pos 0)
      → ((v : World) → uv ask_start v ≡ pos 0)
      → ((v : World) → uv ask_closing v ≡ pos 0)
      → (cs : List UvCall) × ((on_start uv client cb timeout repeat
            (on_stop uv client c (set_active true w))).calls
          ≡ cs ++ (close_handle ∷ timer_init ∷ unref ∷ timer_start timeout repeat ∷ []))
        × ((on_start uv client cb timeout repeat (on_stop uv client c (set_active true w))).told
            ≡ w.told)
  stop_then_start c cb timeout repeat w i s h =
      let (cs, e) = stop_lem c w h in
      let v = record w {
        timer = record w.timer { active = false; close_cb = c };
        calls = cs ++ (close_handle ∷ []);
      } in
      let both = ap (on_start uv client cb timeout repeat) e ∙ start_runs cb timeout repeat v i s in
      (cs, ap (λ u. u.calls) both ∙ simp append_assoc, ap (λ u. u.told) both)

  -- A start that libuv refuses comes to `on_stop` with no callback.
  start_failed :
      (cb : Option ℕ) (timeout repeat : ℕ) (w : World) (code : ℤ)
      → is_zero code ≡ false
      → IsRefused uv code
      → (v : World) × (on_start uv client cb timeout repeat (set_active false w)
          ≡ on_stop uv client none (set_active true v))
        × (v.told ≡ w.told)
  unfolding on_start
  start_failed cb timeout repeat w code z (inl i) =
      let on = call timer_init (record w {
        timer = record w.timer { active = true; cb = cb; timeout = timeout; repeat = repeat };
      }) in
      (on, rw (i on) (rw z refl), refl)
  start_failed cb timeout repeat w code z (inr (i, s)) =
      let on = call timer_init (record w {
        timer = record w.timer { active = true; cb = cb; timeout = timeout; repeat = repeat };
      }) in
      (
        running cb timeout repeat w,
        rw (i on) (rw (s (running cb timeout repeat w)) (rw z refl)),
        refl,
      )

  module _ (quiet : (n : Notice) (w : World) → client n w ≡ w) where
    closes :
        (cb : Option ℕ) (w : World)
        → on_close uv client (record w { timer = record w.timer { close_cb = cb } })
          ≡ record w { timer = record w.timer { close_cb = cb }; told = w.told ++ notices cb }
    unfolding on_close
    closes none w =
        ap (λ t. record w { timer = record w.timer { close_cb = none }; told = t })
          (sym (append-nil w.told))
    closes (some f) w = quiet (closed f) _

    -- A running timer that is stopped while its handle is not closing yet is off, and libuv's close
    -- callback calls the close callback that `stop` was given, if any, and no other.
    pub stop_closes :
        (cb : Option ℕ) (w : World)
        → ((v : World) → uv ask_closing v ≡ pos 0)
        → ((on_close uv client (on_stop uv client cb (set_active true w))).timer.active ≡ false)
          × ((on_close uv client (on_stop uv client cb (set_active true w))).told
              ≡ w.told ++ notices cb)
    stop_closes cb w c =
        let (cs, e) = stop_lem cb w c in
        let both =
          ap (on_close uv client) e
          ∙ closes cb (record w {
            timer = record w.timer { active = false };
            calls = cs ++ (close_handle ∷ []);
          }) in
        (ap (λ u. u.timer.active) both, ap (λ u. u.told) both)

    -- If libuv refuses to initialise or to start the timer, it is off again, and neither its task
    -- nor any close callback is called, also not when libuv has closed the handle.
    pub start_fails :
        (cb : Option ℕ) (timeout repeat : ℕ) (w : World) (code : ℤ)
        → is_zero code ≡ false
        → IsRefused uv code
        → ((v : World) → uv ask_closing v ≡ pos 0)
        → ((on_close uv client
              (on_start uv client cb timeout repeat (set_active false w))).timer.active
            ≡ false)
          × ((on_close uv client (on_start uv client cb timeout repeat (set_active false w))).told
              ≡ w.told)
    start_fails cb timeout repeat w code z which c =
        let (v, e, same) = start_failed cb timeout repeat w code z which in
        let (off, told) = stop_closes none v c in
        let both = ap (on_close uv client) e in
        (
          ap (λ u. u.timer.active) both ∙ off,
          ap (λ u. u.told) both ∙ told ∙ append-nil v.told ∙ same,
        )
