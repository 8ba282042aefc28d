-- ===== src/IoSignal/Lifecycle.antt =====
-- The life of a signal handler that the loop's own thread starts and stops.
use sdpf.Prelude.{
  ℕ, ◌≡◌, refl, ap, ◌∙◌, Bool, true, false, Option, none, some, List, [], ◌∷◌, ◌++◌, append_assoc,
  ℤ, pos, neg, is_zero, if◌then◌else◌, Bool-cases, inl, inr,
}
use sdpf.IoScheduler.{IoSchedulerImp, in_loop_thread}
use sdpf.IoScheduler.Hosted.{has_context, dispatch_here, dispatch_task, failed_with}
use sdpf.IoSignal.{
  World, Task, starts, UvCall, signal_init, unref, signal_start, signal_stop, close_handle, UvQuery,
  ask_init, ask_active, ask_closing, Notice, call, on_close, on_stop, on_start, host, start,
}

-- A signal handler in a scheduler that is initialised, on or off.
abbrev pub placed : IoSchedulerImp Task → Bool → World → World
placed sch on w = record w {
  signal = record w.signal { context = some (record sch { init = true }); active = on };
}

-- The signal is watched with this task.
abbrev pub watching : Option ℕ → ℤ → World → World
watching cb signum w = record w {
  signal = record w.signal { active = true; cb = cb; signum = signum };
  calls = ((w.calls ++ (signal_init ∷ [])) ++ (unref ∷ [])) ++ (signal_start signum ∷ []);
}

module _ (uv : UvQuery → World → ℤ) (client : Notice → World → World) where
  start_here :
      (me : ℕ) (send_ret : ℤ) (sch : IoSchedulerImp Task) (cb : Option ℕ) (signum : ℤ) (w : World)
      → in_loop_thread sch me ≡ true
      → start uv client me send_ret cb signum (placed sch false w)
        ≡ some (pos 0, on_start uv client cb signum (placed sch false w))
  unfolding start
  start_here me send_ret sch cb signum w here =
      let t = starts cb signum in
      let v = placed sch false w in
      let h = host uv client in
      ap
        (λ b.
          if b then some (neg 1, v) else failed_with h (neg 3) (dispatch_task h me send_ret t v))
        (has_context h me sch t v refl)
      ∙ ap (failed_with h (neg 3)) (dispatch_here h me sch t v refl send_ret here)

  -- What `on_stop` tells libuv: the handle is stopped, if it is active, and closed.
  abbrev pub stop_calls : Option ℕ → World → List UvCall
  stop_calls cb v =
      if is_zero
        (uv ask_active (record v { signal = record v.signal { active = false; close_cb = cb } }))
      then close_handle ∷ []
      else signal_stop ∷ (close_handle ∷ [])

  stop_lem :
      (sch : IoSchedulerImp Task) (cb : Option ℕ) (w : World)
      → ((v : World) → uv ask_closing v ≡ pos 0)
      → on_stop uv client cb (placed sch true w) ≡ record (placed sch false w) {
        signal = record (placed sch false w).signal { close_cb = cb };
        calls = w.calls ++ stop_calls cb (placed sch true w);
      }
  unfolding on_stop
  stop_lem sch cb w c =
      let off = record (placed sch false w) {
        signal = record (placed sch false w).signal { close_cb = cb };
      } in
      elim (Bool-cases (is_zero (uv ask_active off))) [
        | inl q ↦ rw (q, c off) refl
        | inr q ↦
            rw (q, c (call signal_stop off))
              (ap (λ l. record off { calls = l })
                (append_assoc w.calls (signal_stop ∷ []) (close_handle ∷ [])))
      ]

  -- In the loop's thread `start` returns 0 also when libuv refuses to initialise the handle: the
  -- caller is told nothing, while the signal is not watched, and no callback is called then or when
  -- the handle has been closed.
  pub start_hides_failure :
      (me : ℕ) (send_ret : ℤ) (sch : IoSchedulerImp Task) (cb : Option ℕ) (signum code : ℤ)
      (w : World)
      → in_loop_thread sch me ≡ true
      → is_zero code ≡ false
      → ((v : World) → uv ask_init v ≡ code)
      → ((v : World) → uv ask_closing v ≡ pos 0)
      → (w' : World) × (start uv client me send_ret cb signum (placed sch false w)
          ≡ some (pos 0, w'))
        × (w'.signal.active ≡ false)
        × ((on_close uv client w').told ≡ w.told)
  unfolding on_start on_close
  start_hides_failure me send_ret sch cb signum code w here z i c =
      let on =
        call signal_init (record w { signal = record w.signal { cb = cb; signum = signum } }) in
      let e = stop_lem sch none on c in
      let begun : on_start uv client cb signum (placed sch false w)
          ≡ on_stop uv client none (placed sch true on) =
        rw (i (placed sch true on)) (rw z refl) in
      (
        _,
        start_here me send_ret sch cb signum w here ∙ ap (λ v. some (pos 0, v)) (begun ∙ e),
        refl,
        refl,
      )
