-- ===== src/Link/Stream.antt =====
-- A stream of two small messages in two reads, to try sdpf.Link on.
use sdpf.Prelude.{
  ℕ, ◌+◌, ◌≡◌, ◌<◌, ◌≤◌, refl, ◌∙◌, ap, List, [], ◌∷◌, ◌++◌, length, take, drop, replicate, arith,
  length-append, sym, length-take, length-drop, append-nil, take-append-drop,
}
use sdpf.Dispatcher.{MetaRpc}
use sdpf.Dispatcher.Sample.{plain_pack, echo_request, echo_request-IsMeta, length-echo_request}
use sdpf.Frame.Wire.{wire, Carries, length-wire}
use sdpf.Frame.Receiving.{wires}
use sdpf.Link.Streaming.{Reads, no_reads, one_read}
use sdpf.RpcChannel.Samples.{body}

abbrev pub short : List ℕ
short = 1 ∷ 2 ∷ []

abbrev pub long : List ℕ
long = replicate 20 7

abbrev pub packet : List ℕ → List ℕ
packet body = wire plain_pack echo_request body

pub length-packet : (body : List ℕ) → length (packet body) ≡ 23 + length body
length-packet body = omega (arith, length-wire plain_pack echo_request body, length-echo_request)

pub carries :
    (body : List ℕ) → length body ≤ 20 → 0 < length body → Carries plain_pack echo_request body
carries body h p = omega (arith, length-echo_request)

-- A handler that keeps the bodies, the last first.
abbrev pub keep : MetaRpc → List ℕ → List (List ℕ) → List (List ℕ)
keep m xs s = xs ∷ s

abbrev pub echo : List (MetaRpc × List ℕ)
echo = (echo_request, short) ∷ []

pub length-echo : length (wires plain_pack echo) ≡ 25
unfolding wires
length-echo = omega (arith, length-packet short, length-append (packet short) [])

-- The message, and the beginning of another.
abbrev pub first : List ℕ
first = packet short ++ take 5 (packet short)

pub first-Reads :
    Reads plain_pack []
      (first ∷ drop 5 (packet short) ∷ [])
      ((echo_request, short) ∷ ((echo_request, short) ∷ []))
      []
unfolding wires
first-Reads =
    one_read echo (omega (arith, count)) (omega (arith, count))
      ((echo_request-IsMeta, carries short (omega arith) (omega arith)), tt)
      (
        echo_request,
        short,
        5,
        (echo_request-IsMeta, carries short (omega arith) (omega arith)),
        omega (arith, length-packet short),
        refl,
      )
      (ap (λ xs. xs ++ take 5 (packet short)) (sym (append-nil (packet short))))
      (omega
        (arith, length-packet short, length-take 5 (packet short), length-append (packet short) []))
      (omega (arith, length-take 5 (packet short)))
      (one_read echo (omega (arith, rest)) (omega (arith, rest))
        ((echo_request-IsMeta, carries short (omega arith) (omega arith)), tt)
        (
          echo_request,
          short,
          0,
          (echo_request-IsMeta, carries short (omega arith) (omega arith)),
          omega (arith, length-packet short),
          refl,
        )
        (take-append-drop 5 (packet short)
          ∙ sym (append-nil (packet short ++ []) ∙ append-nil (packet short)))
        (omega arith) (omega arith) no_reads)
  where
    count : length first ≡ 30
    count = omega (
      arith,
      length-packet short,
      length-append (packet short) (take 5 (packet short)),
      length-take 5 (packet short),
    )

    rest : length (drop 5 (packet short)) ≡ 20
    rest = omega (arith, length-packet short, length-drop 5 (packet short))
