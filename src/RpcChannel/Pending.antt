-- ===== src/RpcChannel/Pending.antt =====
-- Packets and the table of pending requests: lemmas that the operations share.
use sdpf.Prelude.{
  ℕ, zero, suc, inl, inr, Bool-cases, ◌==◌, ==_iff, ◌+◌, ◌^◌, ◌≤◌, ◌<◌, ◌≡◌, refl, sym, ap, ◌∙◌,
  true, false, Option, none, some, List, [], ◌∷◌, length, arith, ℤ, pos, neg, is_zero, lookup,
  erase, take, length-take,
}
use sdpf.IoBuf.{IoBufImp, initial_size}
use sdpf.IoBuf.Invariant.{contents}
use sdpf.Dispatcher.{MetaRpc, blank}
use sdpf.Dispatcher.Roundtrip.{IsMeta, IsText, IsCString, meta_bytes}
use sdpf.Frame.{header_len, pack}
use sdpf.Frame.Wire.{wire}
use sdpf.Frame.Packing.{Stores, pack-wire, pack-wire_null}
use sdpf.RpcChannel.{
  World, Env, emit, sent, completed, woken, set_ec, finish, remove_request, send_packet,
}
use sdpf.RpcChannel.Client.{request_meta, name_max}

-- The message's bytes fit into the buffer behind the header and the meta.
abbrev pub Carried : (env : Env) (m : MetaRpc) → IsMeta m → Option ℕ → List ℕ → Type 0
Carried env m im none body =
    (header_len + length (meta_bytes env.mp m) ≤ initial_size) × (body ≡ [])
Carried env m im (some r) body = Stores env.mp m im (env.serialize r) body

-- The connection takes every packet, or none.
abbrev pub Accepts : Env → Type 0
Accepts env = (b : IoBufImp) → env.send b ≡ pos 0

abbrev pub Refuses : Env → Type 0
Refuses env = (b : IoBufImp) → is_zero (env.send b) ≡ false

module _ (env : Env) (m : MetaRpc) (im : IsMeta m) where
  packet :
      (msg : Option ℕ) (body : List ℕ)
      → Carried env m im msg body
      → (b : IoBufImp) × (pack env.mp m (elim msg [ none ↦ none | some r ↦ some (env.serialize r) ])
          ≡ some (pos 0, b))
        × (contents b ≡ wire env.mp m body)
  packet none body (room, e) =
      let (b, packed, held, v) = pack-wire_null env.mp m im room in
      (b, packed, held ∙ ap (wire env.mp m) (sym e))
  packet (some r) body c =
      let (b, packed, held, v) = pack-wire env.mp m im (env.serialize r) body c in (b, packed, held)

  pub send_packet_accepted :
      (msg : Option ℕ) (body : List ℕ) (w : World)
      → Carried env m im msg body
      → Accepts env
      → (b : IoBufImp) × (send_packet env m msg w ≡ some (pos 0, emit (sent b) w))
        × (contents b ≡ wire env.mp m body)
  unfolding send_packet
  send_packet_accepted msg body w c a =
      let (b, packed, held) = packet msg body c in (b, rw (packed) (rw (a b)), held)

  pub send_packet_refused :
      (msg : Option ℕ) (body : List ℕ) (w : World)
      → Carried env m im msg body
      → Refuses env
      → send_packet env m msg w ≡ some (neg 3, w)
  unfolding send_packet
  send_packet_refused msg body w c a =
      let (b, packed, held) = packet msg body c in rw (packed) (rw (a b))

take-IsCString : (n : ℕ) (s : List ℕ) → IsCString s → IsCString (take n s)
take-IsCString zero s h = tt
take-IsCString (suc n) [] h = tt
take-IsCString (suc n) (x ∷ xs) h = (h.0, take-IsCString n xs h.1)

take-IsText : (s : List ℕ) → IsCString s → IsText (take name_max s)
take-IsText s h = record {
  plain = take-IsCString name_max s h;
  short = omega (arith, length-take name_max s);
}

-- The meta of a request is one that the receiver can read, however long the names are.
pub request_meta-IsMeta :
    (id : ℕ) (service method : List ℕ)
    → id < 2 ^ 32
    → IsCString service
    → IsCString method
    → IsMeta (request_meta id service method)
unfolding request_meta blank
request_meta-IsMeta id service method h s t = inl (record {
  kind = refl;
  id = h;
  service = take-IsText service s;
  method = take-IsText method t;
  no_code = refl;
  no_text = refl;
})

-- The three ways through `remove_request`.
pub remove_missing :
    (id : ℕ) (w : World) → lookup id w.requests ≡ none → remove_request id w ≡ (none, w)
unfolding remove_request
remove_missing id w e = rw (e, remove_request)

pub remove_ordinary :
    (id p : ℕ) (w : World)
    → lookup id w.requests ≡ some p
    → is_zero (w.ctrls p).code ≡ true
    → remove_request id w ≡ (some p, record w { requests = erase id w.requests })
unfolding remove_request
remove_ordinary id p w e z = rw (e, remove_request) (rw z)

pub remove_notify :
    (id p : ℕ) (w : World)
    → lookup id w.requests ≡ some p
    → is_zero (w.ctrls p).code ≡ false
    → remove_request id w ≡ (some p, w)
unfolding remove_request
remove_notify id p w e z = rw (e, remove_request) (rw z)

-- Writing a code leaves the callbacks alone.
pub callback-set_ec :
    (p q : ℕ) (code : ℤ) (w : World) → ((set_ec p code w).ctrls q).callback ≡ (w.ctrls q).callback
callback-set_ec p q code w = elim (Bool-cases (p == q)) [
  | inl e ↦ let same : p ≡ q = (==_iff p q).0 e in rw (e) (ap (λ r. (w.ctrls r).callback) same)
  | inr e ↦ rw e
]

pub after_ec :
    (p : ℕ) (code : ℤ) (w : World)
    → (w.ctrls p).callback ≡ none
    → ((set_ec p code w).ctrls p).callback ≡ none
after_ec p code w e = callback-set_ec p p code w ∙ e

-- Who waits without a callback is woken.
pub finish_woken :
    (env : Env) (p : ℕ) (w : World)
    → (w.ctrls p).callback ≡ none
    → finish env p w ≡ emit (woken p) w
unfolding finish
finish_woken env p w e =
    ap
      (λ o. elim o as (λ _. World) [
        | none ↦ emit (woken p) w
        | some cb ↦ env.user cb (emit (completed p) w)
      ])
      e

pub finish_completed :
    (env : Env) (p cb : ℕ) (w : World)
    → (w.ctrls p).callback ≡ some cb
    → finish env p w ≡ env.user cb (emit (completed p) w)
unfolding finish
finish_completed env p cb w e =
    ap
      (λ o. elim o as (λ _. World) [
        | none ↦ emit (woken p) w
        | some c ↦ env.user c (emit (completed p) w)
      ])
      e
