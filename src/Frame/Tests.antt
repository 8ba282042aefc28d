-- ===== src/Frame/Tests.antt =====
-- The theorems of sdpf.Frame at a small message.
use sdpf.Prelude.{
  ℕ, ◌≡◌, refl, false, some, List, [], ◌∷◌, ◌++◌, length, take, arith, length-append, take_all,
  length-take,
}
use sdpf.IoBuf.{IoBufImp}
use sdpf.IoBuf.Invariant.{IsValid, contents, readable_lem}
use sdpf.Dispatcher.{MetaRpc}
use sdpf.Dispatcher.Sample.{plain_pack, echo_request, echo_request-IsMeta, length-echo_request}
use sdpf.Frame.{on_recv, Received}
use sdpf.Frame.Wire.{wire, Carries, length-wire}
use sdpf.Frame.Receiving.{wires, on_recv-wires}

abbrev body : List ℕ
body = 1 ∷ 2 ∷ []

abbrev packet : List ℕ
packet = wire plain_pack echo_request body

length-packet : length packet ≡ 25
length-packet = omega (arith, length-wire plain_pack echo_request body, length-echo_request)

-- A whole message and five bytes of the next.
abbrev came : List ℕ
came = (packet ++ []) ++ take 5 packet

length-came : length came ≡ 30
length-came = omega (
  arith,
  length-packet,
  length-append (packet ++ []) (take 5 packet),
  length-append packet [],
  length-take 5 packet,
)

carries : Carries plain_pack echo_request body
carries = omega (arith, length-echo_request)

-- A handler that keeps the bodies, the last first.
abbrev keep : MetaRpc → List ℕ → List (List ℕ) → List (List ℕ)
keep m xs s = xs ∷ s

abbrev received : IoBufImp
received = record { buff = came; read_index = 0; write_index = 30 }

contents-received :
    contents received ≡ wires plain_pack ((echo_request, body) ∷ []) ++ take 5 packet
unfolding wires
contents-received = take_all 30 came (omega (arith, length-came))

received-IsValid : IsValid received
received-IsValid = record {
  ordered = omega arith;
  within = omega (arith, length-came);
  small = omega (arith, length-came);
}

on_recv-wires_example :
    (r : Received (List (List ℕ))) × (on_recv plain_pack keep 31 received [] ≡ some r)
    × (r.state ≡ body ∷ [])
    × (r.stopped ≡ false)
    × (contents r.buffer ≡ take 5 packet)
    × IsValid r.buffer
on_recv-wires_example =
    on_recv-wires plain_pack keep ((echo_request, body) ∷ []) (take 5 packet) 31 received []
      received-IsValid ((echo_request-IsMeta, carries), tt)
      (echo_request, body, 5, (echo_request-IsMeta, carries), omega (arith, length-packet), refl)
      contents-received (omega (arith, readable_lem received-IsValid))
