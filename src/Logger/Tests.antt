-- ===== src/Logger/Tests.antt =====
-- The theorem of sdpf.Logger where zlog finds the category at the second attempt.
use sdpf.Prelude.{List, [], ◌∷◌, none, some, pos, length, ◌==◌, if◌then◌else◌}
use sdpf.Logger.{Zlog, create, log_init, start_zlog, log_uninit}
use sdpf.Logger.Ordering.{Op, init, uninit, run, strays, IsKept, run-IsKept}

-- A zlog that knows the category "a".
abbrev zlog : Zlog
zlog = record { init = λ n l. pos 0; category = λ n l. if length n == 1 then some 1 else none }

-- The log is taken down twice.
abbrev ups_and_downs : List Op
ups_and_downs = init none ∷ init (some (b'a' ∷ [])) ∷ init none ∷ uninit ∷ uninit ∷ []

run-IsKept_example : IsKept (run zlog ups_and_downs create) 1
unfolding strays create log_init start_zlog log_uninit
run-IsKept_example = run-IsKept zlog ups_and_downs
