-- ===== src/IoScheduler/Wakeup.antt =====
-- The two halves of `post` under concurrency: no wake-up is lost.
--
-- A post puts its task into the queue under the mutex and then calls `uv_async_send`; other threads
-- and the loop may step in between. libuv's part is what its manual says of async handles: after
-- `uv_async_send` the callback is called at least once, and the sends before that call may share it.
use sdpf.Prelude.{ℕ, ◌+◌, ◌-◌, ◌<◌, ◌≡◌, ◌⊎◌, Bool, true, false, List, [], ◌∷◌, ◌++◌, some, pos}
use sdpf.IoScheduler.{IoSchedulerImp, post, on_async}

-- `senders` have queued a task and not called `uv_async_send` yet; `signalled` is a send that the
-- callback has still to answer; `swapping` is a callback that has not taken the queue yet; `posted`
-- are the tasks that were put into the queue, `taken` those that `on_async` has taken, oldest first.
pub record Shared (Task : Type 0) : Type 0 where
  pub sch : IoSchedulerImp Task
  pub senders : ℕ
  pub signalled : Bool
  pub swapping : Bool
  pub posted : List Task
  pub taken : List Task

module _ {Task : Type 0} where
  -- A task that is taken is noted down. What it posts is a post of its own.
  abbrev pub take_note : Task → IoSchedulerImp Task × List Task → IoSchedulerImp Task × List Task
  take_note f (sch, l) = (sch, l ++ (f ∷ []))

  pub data Step (s : Shared Task) : Shared Task → Type 0 where
    -- `queue_task_.emplace_back`, as `post` does it
    enqueue :
        (f : Task) {t : Shared Task}
        → s.sch.init ≡ true
        → t ≡ record s {
          sch = (post s.sch (pos 0) (some f)).1;
          senders = s.senders + 1;
          posted = s.posted ++ (f ∷ []);
        }
        → Step s t
    -- `uv_async_send`
    send :
        {t : Shared Task}
        → 0 < s.senders
        → t ≡ record s { senders = s.senders - 1; signalled = true }
        → Step s t
    -- libuv notices the signal and calls `on_async`
    notice :
        {t : Shared Task}
        → s.signalled ≡ true
        → t ≡ record s { signalled = false; swapping = true }
        → Step s t
    -- `temp.swap(queue_task_)`, and the loop over `temp`
    swap :
        {t : Shared Task}
        → s.swapping ≡ true
        → t ≡ record s {
          sch = (on_async take_note (s.sch, s.taken)).0;
          swapping = false;
          taken = (on_async take_note (s.sch, s.taken)).1;
        }
        → Step s t

  pub data Reach (s : Shared Task) : Shared Task → Type 0 where
    here : Reach s s
    next : {t u : Shared Task} → Reach s t → Step t u → Reach s u

  -- A queued task has somebody who will see to it, and every task is taken or queued.
  pub record IsAttended (s : Shared Task) : Type 0 where
    pub kept : s.posted ≡ s.taken ++ s.sch.queue_task
    pub seen :
        (s.sch.queue_task ≡ []) ⊎ (0 < s.senders) ⊎ (s.signalled ≡ true) ⊎ (s.swapping ≡ true)

  -- Without another post, everything that was posted can be taken.
  abbrev pub Drains : Shared Task → Shared Task → Type 0
  Drains s t = (u : Shared Task) × Reach s u × (u.posted ≡ t.posted) × (u.taken ≡ t.posted)

  -- Somebody is still to do something, or everything has been taken.
  abbrev pub TakenOrDue : Shared Task → Type 0
  TakenOrDue t = (t.taken ≡ t.posted) ⊎ (0 < t.senders) ⊎ (t.signalled ≡ true) ⊎ (t.swapping ≡ true)
