-- ===== src/Link/PipelineTests.antt =====
-- The theorem of sdpf.Link.Pipeline at a connection that sends three small messages.
use sdpf.Prelude.{
  ℕ, ◌≡◌, refl, sym, ap, ◌∙◌, some, inl, List, [], ◌∷◌, ◌++◌, length, take, drop, arith, pos,
  append-nil, append_assoc, take-append-drop, take-append_left,
}
use sdpf.IoBuf.{IoBufImp}
use sdpf.IoBuf.Invariant.{IsValid, contents}
use sdpf.Dispatcher.{MetaRpc}
use sdpf.Dispatcher.Sample.{plain_pack, echo_request, echo_request-IsMeta}
use sdpf.Frame.Receiving.{wires}
use sdpf.TcpConnection.{World, on_send, on_write, next_write, send_buf, tell}
use sdpf.TcpConnection.Sending.{Event, arrives, done, write_of, step, run, live}
use sdpf.Link.{arrive_all, alone}
use sdpf.Link.Reading.{up}
use sdpf.Link.Streaming.{concat}
use sdpf.Link.Pipeline.{bytes_of, Packets, bytes_of-Packets, run-arrive_all}
use sdpf.Link.Stream.{short, packet, keep, first, first-Reads, carries, length-packet}
use sdpf.Link.Samples.{uv, world, empty}

abbrev sent : IoBufImp
sent = record { buff = packet short; read_index = 0; write_index = 25 }

abbrev sends : List Event
sends = arrives sent ∷ (arrives sent ∷ (arrives sent ∷ (done ∷ [])))

abbrev sender : World
sender =
    live (sent ∷ (sent ∷ []))
      (record (world empty) { calls = write_of sent ∷ (write_of sent ∷ []) })

went : run uv alone sends ([], live [] (world empty)) ≡ some (sent ∷ (sent ∷ (sent ∷ [])), sender)
unfolding run step on_send on_write next_write send_buf tell
went = refl

whole : contents sent ≡ packet short
whole =
    ap (λ n. take n (packet short)) (sym (length-packet short))
    ∙ ap (take (length (packet short))) (sym (append-nil (packet short)))
    ∙ take-append_left (packet short) []

holds : IsValid sent
holds = record {
  ordered = omega arith;
  within = omega (arith, length-packet short);
  small = omega (arith, length-packet short);
}

abbrev echos : List (MetaRpc × List ℕ)
echos = (echo_request, short) ∷ ((echo_request, short) ∷ [])

packets : Packets plain_pack (sent ∷ (sent ∷ [])) echos
packets = (
  (holds, (echo_request-IsMeta, carries short (omega arith) (omega arith)), whole),
  ((holds, (echo_request-IsMeta, carries short (omega arith) (omega arith)), whole), tt),
)

written :
    drop (length (bytes_of (world empty).calls)) (bytes_of sender.calls)
    ≡ concat (first ∷ (drop 5 (packet short) ∷ [])) ++ []
unfolding bytes_of wires
written =
    bytes_of-Packets plain_pack (sent ∷ (sent ∷ [])) echos packets
    ∙ ap (λ xs. packet short ++ (xs ++ [])) (sym (take-append-drop 5 (packet short)))
    ∙ simp append_assoc

run-arrive_all_example :
    (missing : List (MetaRpc × List ℕ)) × (echos ++ ((echo_request, short) ∷ []) ≡ echos ++ missing)
    × ((w' : World) × (arrive_all uv 104 1
            (pos 0)
            plain_pack
            keep
            (first ∷ (drop 5 (packet short) ∷ []))
            (record { conn = up (world empty); state = [] })
          ≡ some (record { conn = up w'; state = short ∷ (short ∷ []) }))
        × (contents w'.conn.recv_buf ≡ []))
run-arrive_all_example =
    run-arrive_all uv alone (λ n w. refl) plain_pack 104 1 (pos 0) keep sends
      (sent ∷ (sent ∷ (sent ∷ []))) (echos ++ ((echo_request, short) ∷ [])) [] (world empty) sender
      (world empty) [] went
      ((holds, (echo_request-IsMeta, carries short (omega arith) (omega arith)), whole), packets)
      written (record { ordered = omega arith; within = omega arith; small = omega arith })
      (inl refl) refl first-Reads
