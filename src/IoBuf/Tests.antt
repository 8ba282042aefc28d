-- ===== src/IoBuf/Tests.antt =====
-- Runs of sdpf.IoBuf on small buffers, and the theorems at them.
use sdpf.Prelude.{◌≡◌, refl, some, List, [], ◌∷◌, ◌++◌, arith, pos}
use sdpf.IoBuf.{
  IoBufImp, create, write, ensure_writable, writable_bytes, append_bytes, memcpy_in, has_written,
}
use sdpf.IoBuf.Invariant.{IsValid, contents}
use sdpf.IoBuf.History.{Call, puts, gets, reserves, drops_all, run, run_conserves}

-- Two unread bytes behind a read one, and two free.
abbrev sample : IoBufImp
sample = record { buff = 9 ∷ 1 ∷ 2 ∷ 0 ∷ 0 ∷ []; read_index = 1; write_index = 3 }

sample-IsValid : IsValid sample
sample-IsValid = record { ordered = omega arith; within = omega arith; small = omega arith }

abbrev calls : List Call
calls = puts (5 ∷ 6 ∷ []) ∷ gets 3 ∷ reserves 4 ∷ drops_all ∷ []

run_conserves_example :
    IsValid (run sample calls).final
    × ((1 ∷ 2 ∷ []) ++ (run sample calls).taken
        ≡ (run sample calls).given ++ contents (run sample calls).final)
run_conserves_example =
    run_conserves sample calls sample-IsValid (omega arith, (tt, (omega arith, (tt, tt))))

-- The constructor's size, and a write and a read of one byte.
fresh_write :
    write (create 4) (some (8 ∷ [])) 1
    ≡ some (pos 0, record { buff = 8 ∷ 0 ∷ 0 ∷ 0 ∷ []; read_index = 0; write_index = 1 })
unfolding write ensure_writable create writable_bytes append_bytes memcpy_in has_written
fresh_write = refl
