-- ===== src/Dispatcher/Tests.antt =====
-- A request, a response, and the theorems of sdpf.Dispatcher at them.
use sdpf.Prelude.{
  ℕ, ◌≡◌, refl, true, ◌<◌, some, ◌∷◌, ◌++◌, drop, length, arith, pos, replicate, length-replicate,
}
use sdpf.Dispatcher.{c_str, serialize_meta, deserialize_meta, blank}
use sdpf.Dispatcher.Roundtrip.{meta_bytes, serialize-deserialize}
use sdpf.Dispatcher.Messages.{
  Msg, message_bytes, serialize, deserialize, has_zero, received, deserialize-serialize,
}
use sdpf.Dispatcher.Sample.{plain_pack, echo_request, echo_request-IsMeta, length-echo_request}

serialize-deserialize_example :
    (serialize_meta plain_pack echo_request 20
      ≡ some
          (pos (length (meta_bytes plain_pack echo_request)), meta_bytes plain_pack echo_request))
    × (0 < length (meta_bytes plain_pack echo_request))
    × (deserialize_meta plain_pack (blank (pos 2)) (meta_bytes plain_pack echo_request)
        ≡ some (pos 0, echo_request))
serialize-deserialize_example =
    serialize-deserialize plain_pack echo_request (pos 2) 20 echo_request-IsMeta
      (omega (arith, length-echo_request))

-- A message with the text "hi", received into an object that had the text "bye".
abbrev hi : Msg
hi = record { log_id = pos 3; msg = b'h' ∷ b'i' ∷ replicate 62 0 }

abbrev bye : Msg
bye = record { log_id = pos 2; msg = b'b' ∷ b'y' ∷ b'e' ∷ replicate 61 0 }

ends : has_zero hi.msg ≡ true
unfolding has_zero
ends = refl

length-hi : length (message_bytes plain_pack hi) ≡ 7
unfolding c_str
length-hi = refl

deserialize-serialize_example :
    (serialize plain_pack hi 64
      ≡ some (pos (length (message_bytes plain_pack hi)), message_bytes plain_pack hi))
    × (deserialize plain_pack bye (message_bytes plain_pack hi) ≡ some (pos 0, received hi bye))
    × (c_str (received hi bye).msg ≡ c_str hi.msg ++ c_str (drop (length (c_str hi.msg)) bye.msg))
deserialize-serialize_example =
    deserialize-serialize plain_pack hi bye 64 (omega arith)
      (omega (arith, length-replicate {A = ℕ} 62 0)) ends (omega (arith, length-hi))
