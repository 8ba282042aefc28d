-- ===== src/Frame/Indices.antt =====
-- What `on_recv` leaves as it is in the buffer: the vector, and the index behind its bytes.
use sdpf.Prelude.{
  ℕ, zero, suc, ◌≡◌, ap, sym, ◌∙◌, false, true, Option, none, some, List, [], arith, ◌>>=◌,
}
use sdpf.IoBuf.{IoBufImp, has_readed}
use sdpf.Dispatcher.{MsgPack, MetaRpc}
use sdpf.Frame.{Parsed, incomplete, bad_header, bad_meta, message, parse, Received, on_recv}

-- What a buffer holds, up to what has been read of it.
abbrev pub written : IoBufImp → List ℕ × ℕ
written b = (b.buff, b.write_index)

abbrev written_to : {S : Type 0} → Option (Received S) → List ℕ × ℕ
written_to none = ([], 0)
written_to (some r) = written r.buffer

module _ {S : Type 0} (mp : MsgPack) (process : MetaRpc → List ℕ → S → S) where
  has_readed-written : (b : IoBufImp) (n : ℕ) → written (has_readed b n).1 ≡ written b
  unfolding has_readed
  has_readed-written b n = ground arith

  one_round :
      (fuel : ℕ) (b : IoBufImp) (s : S) (r : Received S)
      → ((n : ℕ) (m : MetaRpc) (body : List ℕ)
          → on_recv mp process fuel (has_readed b (suc n)).1 (process m body s) ≡ some r
          → written r.buffer ≡ written (has_readed b (suc n)).1)
      → (o : Option Parsed)
      → (o >>= λ p. elim p as (λ _. Option (Received S)) [
        | incomplete ↦ some (record { buffer = b; state = s; stopped = false })
        | bad_header ↦ some (record { buffer = b; state = s; stopped = true })
        | bad_meta ↦ some (record { buffer = b; state = s; stopped = true })
        | message zero m body ↦
            some (record { buffer = b; state = process m body s; stopped = false })
        | message (suc n) m body ↦
            on_recv mp process fuel (has_readed b (suc n)).1 (process m body s)
      ])
        ≡ some r
      → written r.buffer ≡ written b
  one_round fuel b s r deeper none h = cc
  one_round fuel b s r deeper (some incomplete) h = ap written_to (sym h)
  one_round fuel b s r deeper (some bad_header) h = ap written_to (sym h)
  one_round fuel b s r deeper (some bad_meta) h = ap written_to (sym h)
  one_round fuel b s r deeper (some (message zero m body)) h = ap written_to (sym h)
  one_round fuel b s r deeper (some (message (suc n) m body)) h =
      deeper n m body h ∙ has_readed-written b (suc n)

  -- What the channel takes is read, nothing is written.
  pub on_recv-written :
      (fuel : ℕ) (b : IoBufImp) (s : S) (r : Received S)
      → on_recv mp process fuel b s ≡ some r
      → written r.buffer ≡ written b
  unfolding on_recv
  on_recv-written zero b s r e = cc
  on_recv-written (suc fuel) b s r e =
      one_round fuel b s r
        (λ n m body. on_recv-written fuel (has_readed b (suc n)).1 (process m body s) r)
        (parse mp b) e
