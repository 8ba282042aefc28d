-- ===== src/RpcChannel/Freshness.antt =====
-- The ids above the channel's counter are not in use: what the operations do to that.
use sdpf.Prelude.{
  ℕ, ◌≤◌, ◌<◌, ◌≡◌, refl, sym, ap, ◌∙◌, subst, Bool, true, false, Option, none, some, [], arith, ℤ,
  pos, ◌>>=◌, lookup, erase, lookup-erase, if◌then◌else◌, is_zero, not,
}
use sdpf.Frame.{pack}
use sdpf.Dispatcher.{MetaRpc}
use sdpf.RpcChannel.{
  World, Env, set_ec, set_text, set_ctrl, emit, sent, remove_request, send_packet,
}
use sdpf.RpcController
use sdpf.RpcChannel.Client.{Waiting, call_async, call_sync, give_up}

pub record IsFresh (c : ℕ) (w : World) : Type 0 where
  pub bounded : w.id ≤ c
  pub above : (k : ℕ) → w.id < k → lookup k w.requests ≡ none

pub IsFresh-mono : (c d : ℕ) (w : World) → c ≤ d → IsFresh c w → IsFresh d w
IsFresh-mono c d w h f = record { bounded = omega (arith, f.bounded); above = f.above }

-- What a method returns has that property, unless it runs into undefined behaviour.
pub data Ok (c : ℕ) (o : Option (ℤ × World)) : Type 0 where
  fails : o ≡ none → Ok c o
  gives : (r : ℤ × World) → o ≡ some r → IsFresh c r.1 → Ok c o

pub ok : {c : ℕ} {ret : ℤ} {w : World} → IsFresh c w → Ok c (some (ret, w))
ok {c} {ret} {w} f = gives (ret, w) refl f

pub Ok-IsFresh : {c : ℕ} {r : ℤ × World} → Ok c (some r) → IsFresh c r.1
Ok-IsFresh (fails e) = cc
Ok-IsFresh {c} (gives r e f) = subst (IsFresh c) (ap from (sym e)) f
  where
    from : Option (ℤ × World) → World
    from none = r.1
    from (some x) = x.1

pub if_Ok :
    {c : ℕ} (b : Bool) {x y : Option (ℤ × World)} → Ok c x → Ok c y → Ok c (if b then x else y)
if_Ok true h k = h
if_Ok false h k = k

bind_Ok :
    {X : Type 0} {c : ℕ} (o : Option X) {f : X → Option (ℤ × World)}
    → ((x : X) → Ok c (f x))
    → Ok c (o >>= f)
bind_Ok none h = fails refl
bind_Ok (some x) h = h x

pub then_Ok :
    {c : ℕ} (o : Option (ℤ × World)) {f : ℤ × World → Option (ℤ × World)}
    → Ok c o
    → ((r : ℤ × World) → IsFresh c r.1 → Ok c (f r))
    → Ok c (o >>= f)
then_Ok none k h = fails refl
then_Ok (some r) k h = h r (Ok-IsFresh k)

-- A world with the same counter and the same table.
pub same-IsFresh :
    {c : ℕ} (w v : World) → w.id ≡ v.id → w.requests ≡ v.requests → IsFresh c w → IsFresh c v
same-IsFresh w v e q f = record {
  bounded = omega (arith, f.bounded, e);
  above = λ k h. ap (lookup k) (sym q) ∙ f.above k (omega (arith, h, e));
}

-- The callbacks of the user leave the counter and the table alone.
abbrev pub IsSteady : (World → World) → Type 0
IsSteady f = (c : ℕ) (w : World) → IsFresh c w → IsFresh c (f w)

erase-IsFresh :
    (c id : ℕ) (w : World) → IsFresh c w → IsFresh c (record w { requests = erase id w.requests })
erase-IsFresh c id w f = record {
  bounded = f.bounded;
  above = λ k h. ground (arith, lookup-erase id k w.requests, f.above k h);
}

taken-IsFresh :
    (c id p : ℕ) (b : Bool) (w : World)
    → IsFresh c w
    → let r : Option ℕ × World =
        if b then (some p, record w { requests = erase id w.requests }) else (some p, w) in
      IsFresh c r.1
taken-IsFresh c id p true w f = erase-IsFresh c id w f
taken-IsFresh c id p false w f = f

pub remove_request-IsFresh :
    (c id : ℕ) (w : World) → IsFresh c w → IsFresh c (remove_request id w).1
unfolding remove_request
remove_request-IsFresh c id w f =
    elim (lookup id w.requests)
      as (λ o.
        let r : Option ℕ × World = elim o as (λ x. Option ℕ × World) [
          | none ↦ (none, w)
          | some p ↦
              if is_zero (w.ctrls p).code
              then (some p, record w { requests = erase id w.requests })
              else (some p, w)
        ] in
        IsFresh c r.1) [ none ↦ f | some p ↦ taken-IsFresh c id p (is_zero (w.ctrls p).code) w f ]

given-IsFresh :
    (c id : ℕ) (b : Bool) (ret : ℤ) (v w : World)
    → IsFresh c v
    → IsFresh c w
    → let r : ℤ × World = if b then (ret, v) else (ret, w) in IsFresh c r.1
given-IsFresh c id true ret v w f g = f
given-IsFresh c id false ret v w f g = g

module _ (env : Env) (waiting : Waiting) {c : ℕ} where
  send_packet-Ok :
      (m : MetaRpc) (msg : Option ℕ) (w : World) → IsFresh c w → Ok c (send_packet env m msg w)
  unfolding send_packet
  send_packet-Ok m msg w f =
      bind_Ok (pack env.mp m (elim msg [ none ↦ none | some x ↦ some (env.serialize x) ])) (λ r.
        if_Ok (not (is_zero r.0)) (ok f) (
          if_Ok (not (is_zero (env.send r.1))) (ok f)
            (ok (same-IsFresh w (emit (sent r.1) w) refl refl f))))

  pub call_async-Ok :
      (m : MetaRpc) (msg : Option ℕ) (w : World) → IsFresh c w → Ok c (call_async env m msg w)
  unfolding call_async
  call_async-Ok m msg w f =
      then_Ok (send_packet env m msg w) (send_packet-Ok m msg w f)
        (λ r g. if_Ok (not (is_zero r.0)) (ok g) (ok g))

  pub call_sync-Ok :
      IsSteady waiting.meanwhile
      → (m : MetaRpc) (msg : Option ℕ) (p : ℕ) (w : World) → IsFresh c w
      → Ok c (call_sync env waiting m msg p w)
  unfolding call_sync
  call_sync-Ok steady m msg p w f =
      let locked = set_ctrl p (RpcController.lock (w.ctrls p)) w in
      then_Ok (send_packet env m msg locked)
        (send_packet-Ok m msg locked (same-IsFresh w locked refl refl f))
        (λ r g.
          if_Ok (not (is_zero r.0)) (ok (same-IsFresh r.1 _ refl refl g))
            (ok (same-IsFresh (waiting.meanwhile r.1) _ refl refl (steady c r.1 g))))

  pub give_up-IsFresh : (id p : ℕ) (r : ℤ × World) → IsFresh c r.1 → IsFresh c (give_up id p r).1
  unfolding give_up
  give_up-IsFresh id p (ret, w) f =
      given-IsFresh c id (not (is_zero ret)) ret _ w
        (remove_request-IsFresh c id (set_text p [] (set_ec p (pos 0) w))
          (same-IsFresh w _ refl refl f))
        f
