-- ===== src/BlockingQueue.antt =====
-- The bounded queue between threads: include/BlockingQueue.hpp.
--
-- Every method holds the mutex from its first line to its last, so it is one step. A `pop` that has
-- to wait on the condition variable is `waits`, and is tried again later.
pub mod Fifo
mod Tests
use sdpf.Prelude.{
  ℕ, Bool, true, false, not, ◌&&◌, ◌||◌, Option, none, some, List, [], ◌∷◌, ◌++◌, length, ltb, leb,
  if◌then◌else◌,
}

pub record BlockingQueue (A : Type 0) : Type 0 where
  pub queue : List A
  pub max_count : ℕ
  pub exiting : Bool

pub data Popped (A : Type 0) : Type 0 where
  waits exits : Popped A
  item : A → Popped A

module _ {A : Type 0} where
  unfoldable pub create : BlockingQueue A
  create = record { queue = []; max_count = 0; exiting = false }

  unfoldable pub init : BlockingQueue A → ℕ → Bool × BlockingQueue A
  init q max_count = (true, record { queue = []; max_count = max_count; exiting = false })

  unfoldable pub full : BlockingQueue A → Bool
  full q = ltb 0 q.max_count && leb q.max_count (length q.queue)

  unfoldable pub push : BlockingQueue A → A → Bool × BlockingQueue A
  push q a =
      if ltb 0 q.max_count && leb q.max_count (length q.queue)
      then (false, q)
      else (true, record q { queue = q.queue ++ (a ∷ []) })

  unfoldable pub pop : BlockingQueue A → Popped A × BlockingQueue A
  pop q =
      if q.exiting
      then (exits, q)
      else elim q.queue [ [] ↦ (waits, q) | a ∷ as' ↦ (item a, record q { queue = as' }) ]

  unfoldable pub front : BlockingQueue A → Option A
  front q = elim q.queue [ [] ↦ none | a ∷ as' ↦ some a ]

  abbrev last : List A → Option A
  last [] = none
  last (a ∷ []) = some a
  last (a ∷ (b ∷ bs)) = last (b ∷ bs)

  unfoldable pub back : BlockingQueue A → Option A
  back q = last q.queue

  unfoldable pub empty : BlockingQueue A → Bool
  empty q = elim q.queue [ [] ↦ true | a ∷ as' ↦ false ]

  unfoldable pub size : BlockingQueue A → ℕ
  size q = length q.queue

  unfoldable pub notify_exit : BlockingQueue A → BlockingQueue A
  notify_exit q = record q { exiting = true }
