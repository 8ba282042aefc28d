-- ===== src/Link/Tests.antt =====
-- The theorems of sdpf.Link.Streaming and sdpf.Link.Limits at small messages.
use sdpf.Prelude.{
  ℕ, ◌≡◌, refl, false, none, some, inl, [], ◌∷◌, ◌++◌, length, take, drop, replicate, arith, pos,
  length-append, length-take, length-replicate,
}
use sdpf.IoBuf.{IoBufImp, max_size}
use sdpf.IoBuf.Invariant.{IsValid, contents}
use sdpf.Dispatcher.Sample.{plain_pack, echo_request, echo_request-IsMeta}
use sdpf.Frame.Receiving.{wires}
use sdpf.TcpConnection.{World, set_connected}
use sdpf.Link.{arrive_all}
use sdpf.Link.Reading.{up}
use sdpf.Link.Streaming.{arrive_all-Reads}
use sdpf.Link.Limits.{unread, arrive_all_overlaps, arrive_all_full}
use sdpf.Link.Samples.{uv, world, empty}
use sdpf.Link.Stream.{
  short, long, packet, keep, echo, first, first-Reads, carries, length-packet, length-echo,
}

arrive_all-Reads_example :
    (w' : World) × (arrive_all uv 104 1
        (pos 0)
        plain_pack
        keep
        (first ∷ drop 5 (packet short) ∷ [])
        (record { conn = up (world empty); state = [] })
      ≡ some (record { conn = up w'; state = short ∷ (short ∷ []) }))
    × IsValid w'.conn.recv_buf
    × (contents w'.conn.recv_buf ≡ [])
arrive_all-Reads_example =
    arrive_all-Reads uv 104 1 (pos 0) plain_pack keep (world empty) []
      (record { ordered = omega arith; within = omega arith; small = omega arith }) (inl refl)
      (omega arith) first-Reads

arrive_all_overlaps_example :
    arrive_all uv 104 1
      (pos 0)
      plain_pack
      keep
      ((wires plain_pack echo ++ take 30 (packet long)) ∷ ((1 ∷ []) ∷ []))
      (record { conn = up (unread (world empty)); state = [] })
    ≡ none
arrive_all_overlaps_example =
    arrive_all_overlaps uv 104 1 (pos 0) plain_pack keep echo (take 30 (packet long)) (1 ∷ []) []
      (world empty) [] ((echo_request-IsMeta, carries short (omega arith) (omega arith)), tt)
      (
        echo_request,
        long,
        30,
        (echo_request-IsMeta, carries long (omega arith) (omega arith)),
        omega (arith, length-packet long),
        refl,
      )
      (omega (arith, whole)) (omega (arith, whole, part))
      (omega (arith, whole, part, length-append (wires plain_pack echo) (take 30 (packet long))))
  where
    whole : length (wires plain_pack echo) ≡ 25
    whole = length-echo

    part : length (take 30 (packet long)) ≡ 30
    part = omega (arith, length-packet long, length-take 30 (packet long))

-- The longest vector, full of an unfinished message.
abbrev full : IoBufImp
full = record { buff = replicate max_size 0; read_index = 0; write_index = max_size }

length-full : length full.buff ≡ max_size
length-full = length-replicate {A = ℕ} max_size 0

arrive_all_full_example :
    (w' : World) × (arrive_all uv 104 1
        (pos 0)
        plain_pack
        keep
        ((1 ∷ []) ∷ [])
        (record { conn = up (world full); state = [] })
      ≡ some (record { conn = set_connected false w'; state = [] }))
    × (w'.conn.recv_buf ≡ full)
arrive_all_full_example =
    arrive_all_full uv 104 1 (pos 0) plain_pack keep (1 ∷ []) [] (world full) []
      (record {
        ordered = omega arith;
        within = omega (arith, length-full);
        small = omega (arith, length-full);
      })
      (omega (arith, length-full)) (omega (arith, length-full)) (omega arith) (λ u. refl)
