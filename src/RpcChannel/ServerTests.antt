-- ===== src/RpcChannel/ServerTests.antt =====
-- The theorems about the server of sdpf.RpcChannel, at a small server.
use sdpf.Prelude.{◌≡◌, ◌≢◌, refl, [], ◌∷◌, arith, some}
use sdpf.RpcChannel.Server.{find_svc, starts_with}
use sdpf.RpcChannel.Serving.{find_svc_wrong}
use sdpf.RpcChannel.Lookup.{NoneLonger, find_whole, find_svc-find_whole}
use sdpf.RpcChannel.Samples.{sum}

find_svc_wrong_example : (find_svc sum (b'S' ∷ []) (0 ∷ []) ≡ some 0) × ((sum 0).name ≢ b'S' ∷ [])
find_svc_wrong_example = find_svc_wrong sum (b'S' ∷ []) b'u' (b'm' ∷ []) [] 0 [] tt refl

longer : NoneLonger sum (b'S' ∷ b'u' ∷ b'm' ∷ []) (0 ∷ [])
unfolding starts_with
longer = (λ h. omega arith, tt)

find_svc-find_whole_example :
    find_svc sum (b'S' ∷ b'u' ∷ b'm' ∷ []) (0 ∷ [])
    ≡ find_whole sum (b'S' ∷ b'u' ∷ b'm' ∷ []) (0 ∷ [])
find_svc-find_whole_example = find_svc-find_whole sum (b'S' ∷ b'u' ∷ b'm' ∷ []) (0 ∷ []) longer
