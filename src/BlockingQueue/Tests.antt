-- ===== src/BlockingQueue/Tests.antt =====
-- The theorem of sdpf.BlockingQueue on a queue of two places.
use sdpf.Prelude.{ℕ, List, [], ◌∷◌, refl, false, arith}
use sdpf.BlockingQueue.Fifo.{Call, pushes, pops, stops, Log, run, IsFair, run-IsFair}

abbrev empty_log : Log ℕ
empty_log = record {
  accepted = [];
  popped = [];
  q = record { queue = []; max_count = 2; exiting = false };
}

empty_log-IsFair : IsFair empty_log
empty_log-IsFair = record { accounted = refl; bounded = λ p. omega arith }

abbrev calls : List (Call ℕ)
calls = pushes 1 ∷ pushes 2 ∷ pushes 3 ∷ pops ∷ stops ∷ pops ∷ []

run-IsFair_example : IsFair (run calls empty_log)
run-IsFair_example = run-IsFair calls empty_log empty_log-IsFair
