-- ===== src/BlockingQueue/Fifo.antt =====
-- What every sequence of calls, from whatever threads, leaves true.
use sdpf.Prelude.{
  ℕ, ◌≤◌, ◌<◌, ◌≡◌, sym, ap, ◌∙◌, Bool, true, false, List, [], ◌∷◌, ◌++◌, length, arith, append-nil,
  append_assoc, length-append, ltb, leb, ◌&&◌, if◌then◌else◌, Bool-cases, inl, inr,
}
use sdpf.BlockingQueue.{BlockingQueue, Popped, waits, exits, item, push, pop, notify_exit}

pub data Call (A : Type 0) : Type 0 where
  pushes : A → Call A
  pops stops : Call A

-- The items accepted and the items handed out so far, oldest first, beside the queue.
pub record Log (A : Type 0) : Type 0 where
  pub accepted : List A
  pub popped : List A
  pub q : BlockingQueue A

room : (m n : ℕ) → 0 < m → (ltb 0 m && leb m n) ≡ false → n < m
room m n p h = ground arith

module _ {A : Type 0} where
  pub handed : Popped A → List A
  handed waits = []
  handed exits = []
  handed (item a) = a ∷ []

  pub step : Call A → Log A → Log A
  step (pushes a) l =
      let (ok, q') = push l.q a in
      record l { accepted = if ok then l.accepted ++ (a ∷ []) else l.accepted; q = q' }
  step pops l = let (r, q') = pop l.q in record l { popped = l.popped ++ handed r; q = q' }
  step stops l = record l { q = notify_exit l.q }

  pub run : List (Call A) → Log A → Log A
  run [] l = l
  run (c ∷ cs) l = run cs (step c l)

  -- Nothing is lost, doubled or overtaken, and a limit other than 0 holds.
  pub record IsFair (l : Log A) : Type 0 where
    pub accounted : l.accepted ≡ l.popped ++ l.q.queue
    pub bounded : 0 < l.q.max_count → length l.q.queue ≤ l.q.max_count

  abbrev log_of : List A → List A → List A → ℕ → Bool → Log A
  log_of acc out xs m ex = record {
    accepted = acc;
    popped = out;
    q = record { queue = xs; max_count = m; exiting = ex };
  }

  push-IsFair :
      (a : A) (acc out xs : List A) (m : ℕ) (ex : Bool)
      → IsFair (log_of acc out xs m ex)
      → IsFair (step (pushes a) (log_of acc out xs m ex))
  unfolding step push
  push-IsFair a acc out xs m ex f = elim (Bool-cases (ltb 0 m && leb m (length xs))) [
    | inl full ↦ rw full f
    | inr free ↦ rw free (record {
      accounted = ap (λ l. l ++ (a ∷ [])) f.accounted ∙ append_assoc out xs (a ∷ []);
      bounded = λ p. omega (arith, length-append xs (a ∷ []), room m (length xs) p free);
    })
  ]

  pop-IsFair :
      (acc out xs : List A) (m : ℕ) (ex : Bool)
      → IsFair (log_of acc out xs m ex)
      → IsFair (step pops (log_of acc out xs m ex))
  unfolding step pop handed
  pop-IsFair acc out xs m true f = record {
    accounted = f.accounted ∙ ap (λ l. l ++ xs) (sym (append-nil out));
    bounded = f.bounded;
  }
  pop-IsFair acc out [] m false f = record {
    accounted = f.accounted ∙ ap (λ l. l ++ []) (sym (append-nil out));
    bounded = f.bounded;
  }
  pop-IsFair acc out (x ∷ xs) m false f = record {
    accounted = f.accounted ∙ sym (append_assoc out (x ∷ []) xs);
    bounded = λ p. omega (arith, f.bounded p);
  }

  stop-IsFair : (l : Log A) → IsFair l → IsFair (step stops l)
  unfolding step notify_exit
  stop-IsFair l f = record { accounted = f.accounted; bounded = f.bounded }

  -- From a queue in order, every sequence of `push`, `pop` and `notify_exit` keeps this: what was
  -- accepted is what was handed out followed by what is queued, and the limit holds.
  pub run-IsFair : (cs : List (Call A)) (l : Log A) → IsFair l → IsFair (run cs l)
  unfolding run
  run-IsFair [] l f = f
  run-IsFair (pushes a ∷ cs) l f =
      run-IsFair cs _ (push-IsFair a l.accepted l.popped l.q.queue l.q.max_count l.q.exiting f)
  run-IsFair (pops ∷ cs) l f =
      run-IsFair cs _ (pop-IsFair l.accepted l.popped l.q.queue l.q.max_count l.q.exiting f)
  run-IsFair (stops ∷ cs) l f = run-IsFair cs _ (stop-IsFair l f)
