-- ===== src/RpcChannel/OwnerTests.antt =====
-- The theorems of sdpf.RpcChannel.Lifetime at a channel that a user lets go of.
use sdpf.Prelude.{true, none, some, List, [], ◌∷◌, ◌≡◌, arith, neg, ◌≢◌}
use sdpf.RpcChannel.Owners.{
  Owned, make_shared, Op, releases, starts, accepts, connects, releases_conn, calls_back, run,
}
use sdpf.RpcChannel.Lifetime.{IsCounted, make_shared-IsCounted, by_start, run-IsCounted, run_leaks}

-- The server takes a connection, which is called back and closes; all pointers go.
abbrev accepted : List Op
accepted = connects ∷ accepts (λ status w. w) ∷ releases_conn ∷ calls_back (λ w. w) ∷ releases ∷ []

run-IsCounted_example : (o : Owned) × (run accepted make_shared ≡ some o) × IsCounted o
run-IsCounted_example = run-IsCounted accepted

held : make_shared.chan_refs ≢ 0
unfolding make_shared
held = omega arith

-- A `start` without an address.
run_leaks_example :
    (o' : Owned) × (run (starts (neg 1) none 80 ∷ (releases ∷ [])) make_shared ≡ some o')
    × (o'.chan_live ≡ true)
    × (o'.conn_live ≡ true)
run_leaks_example = run_leaks (releases ∷ []) make_shared by_start make_shared-IsCounted held
