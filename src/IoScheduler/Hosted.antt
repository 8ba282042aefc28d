-- ===== src/IoScheduler/Hosted.antt =====
-- A component that lives in a scheduler: what src/TcpConnection.cpp, src/TcpServer.cpp,
-- src/IOTimer.cpp and src/IOSignal.cpp do alike when a method posts a task to the loop.
use sdpf.Prelude.{
  ℕ, ◌≡◌, ◌∙◌, ap, Bool, true, false, not, Option, none, some, [], ◌∷◌, ◌++◌, ℤ, pos, is_zero,
  if◌then◌else◌, ◌>>=◌,
}
use sdpf.IoScheduler.{IoSchedulerImp, dispatch, post, in_loop_thread, is_init}

-- Where the component `W` keeps its `context_`, and what its tasks do in the loop's thread. `none`
-- is a null context, and undefined behaviour of a task.
pub record Host (Task W : Type 0) : Type 0 where
  pub context : W → Option (IoSchedulerImp Task)
  pub keep : IoSchedulerImp Task → W → W
  pub run_task : Task → W → Option W

module _ {Task W : Type 0} (host : Host Task W) where
  -- `nullptr == context_ || !context_->is_init()`
  unfoldable pub no_context : W → Bool
  unfolding is_init
  no_context w = elim (host.context w) [ none ↦ true | some sch ↦ not (is_init sch) ]

  -- What `dispatch` returns, in a component that keeps the scheduler.
  abbrev pub settle : Task → W → ℤ × Option Task × IoSchedulerImp Task → Option (ℤ × W)
  settle task w r = elim r.1 [
    | none ↦ some (r.0, host.keep r.2 w)
    | some t ↦ host.run_task t (host.keep r.2 w) >>= λ w'. some (r.0, w')
  ]

  -- `context_->dispatch(task)` in the thread `me`; `send_ret` is the answer of `uv_async_send`.
  unfoldable pub dispatch_task : ℕ → ℤ → Task → W → Option (ℤ × W)
  dispatch_task me send_ret task w = elim (host.context w) [
    | none ↦ none
    | some sch ↦ settle task w (dispatch sch me send_ret (some task))
  ]

  -- A status of `dispatch` other than 0 becomes the method's own code.
  abbrev pub failed_with : ℤ → Option (ℤ × W) → Option (ℤ × W)
  failed_with code r = r >>= λ p. some (if is_zero p.0 then (pos 0, p.1) else (code, p.1))

  module _ (me : ℕ) (sch : IoSchedulerImp Task) (t : Task) (w : W)
      (lives : host.context w ≡ some (record sch { init = true })) where
    pub has_context : no_context w ≡ false
    unfolding no_context
    has_context = ap (λ o. elim o as (λ x. Bool) [ none ↦ true | some s ↦ not s.init ]) lives

    dispatched :
        (send_ret : ℤ)
        → dispatch_task me send_ret t w
          ≡ settle t w (dispatch (record sch { init = true }) me send_ret (some t))
    unfolding dispatch_task
    dispatched send_ret =
        ap
          (λ o. elim o as (λ x. Option (ℤ × W)) [
            | none ↦ none
            | some s ↦ settle t w (dispatch s me send_ret (some t))
          ])
          lives

    -- From another thread the task is queued.
    pub dispatch_away :
        in_loop_thread sch me ≡ false
        → dispatch_task me (pos 0) t w
          ≡ some (
            pos 0,
            host.keep (record sch { init = true; queue_task = sch.queue_task ++ (t ∷ []) }) w,
          )
    unfolding dispatch post in_loop_thread
    dispatch_away away =
        dispatched (pos 0)
        ∙ ap
            (λ b. settle t w (
              if b then (pos 0, some t, record sch { init = true }) else (
                pos 0,
                none,
                record sch { init = true; queue_task = sch.queue_task ++ (t ∷ []) },
              )))
            away

    -- In the loop's thread it runs at once.
    pub dispatch_here :
        (send_ret : ℤ)
        → in_loop_thread sch me ≡ true
        → dispatch_task me send_ret t w
          ≡ (host.run_task t (host.keep (record sch { init = true }) w) >>= λ w'. some (pos 0, w'))
    unfolding dispatch post in_loop_thread
    dispatch_here send_ret here =
        dispatched send_ret
        ∙ ap
            (λ b. settle t w (
              if b
              then (pos 0, some t, record sch { init = true })
              else (let (ret, s) = post (record sch { init = true }) send_ret (some t) in
                  (ret, none, s))))
            here
