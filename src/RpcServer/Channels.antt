-- ===== src/RpcServer/Channels.antt =====
-- The set of channels of a server, over the life of its connections.
use sdpf.Prelude.{
  ℕ, ◌<◌, ◌≡◌, refl, sym, subst, Bool, true, false, not, Option, none, some, List, [], ◌∷◌, ◌++◌, ℤ,
  is_zero, if◌then◌else◌, ◌==◌, ==_iff, arith, ◌>>=◌, has, IsDistinct, has-remove,
  remove-IsDistinct, Bool-cases, inl, inr,
}
use sdpf.RpcChannel
use sdpf.RpcChannel.{Env}
use sdpf.RpcChannel.Setup
use sdpf.RpcChannel.Client
use sdpf.RpcServer.{
  World, create, set_chan, see, register_service, on_alloc, on_channel_connect, on_accept,
  on_channel_close, conn_closed, stop_each, close_all,
}

-- What happens to a server: a connection arrives, for which `TcpServer` calls `on_alloc` and then
-- `on_accept` with the status; a connection closes; the owner registers a service or closes all.
pub data Op : Type 0 where
  arrived : ℤ → Op
  left : ℕ → Op
  registered : ℕ → Op
  ended : Op

unfoldable pub step : Env → Op → World → Option World
step env (arrived status) w = let (c, w1) = on_alloc w in on_accept c status w1
step env (left c) w = some (conn_closed env c w)
step env (registered s) w = some (register_service s w).1
step env ended w = some (close_all w)

unfoldable pub run : Env → List Op → World → Option World
run env [] w = some w
run env (o ∷ os) w = step env o w >>= λ w'. run env os w'

-- What a channel holds where it points to the services.
abbrev pub Shares : List ℕ → Option (List ℕ) → Type 0
Shares ss none = Unit {0}
Shares ss (some xs) = xs ≡ ss

pub record IsSynced (w : World) : Type 0 where
  pub distinct : IsDistinct w.channels
  pub below : (c : ℕ) → has c w.channels ≡ true → c < w.next_chan
  pub shared : (c : ℕ) → Shares w.services (w.chans c).services

pub create-IsSynced : IsSynced create
unfolding create has Setup.create
create-IsSynced = record { distinct = tt; below = λ c h. ground (arith, h); shared = λ c. tt }

fresh : (w : World) → IsSynced w → has w.next_chan w.channels ≡ false
fresh w s = elim (Bool-cases (has w.next_chan w.channels)) [
  | inl e ↦ ground (arith, s.below w.next_chan e)
  | inr e ↦ e
]

-- One channel is put in the place of another.
choose :
    (ss : List ℕ) (b : Bool) (v u : RpcChannel.World)
    → Shares ss v.services
    → Shares ss u.services
    → Shares ss (if b then v else u).services
choose ss true v u h k = h
choose ss false v u h k = k

on_alloc-IsSynced : (w : World) → IsSynced w → IsSynced (on_alloc w).1
unfolding on_alloc has Setup.create
on_alloc-IsSynced w s = record {
  distinct = (fresh w s, s.distinct);
  below = λ c h. ground (arith, h, s.below c);
  shared = λ c. choose w.services (w.next_chan == c) Setup.create (w.chans c) tt (s.shared c);
}

accepted-services :
    (ss : List ℕ) (v : RpcChannel.World)
    → (RpcChannel.Setup.accept_connect
        (on_channel_connect ss)
        (record v { conn_cb = true; close_cb = true })).services
      ≡ some ss
unfolding Setup.accept_connect Setup.on_connect on_channel_connect Setup.set_services
accepted-services ss v = refl

closed-services : (env : Env) (v : RpcChannel.World) → (Client.on_close env v).services ≡ none
unfolding Client.on_close Client.clear_all
closed-services env v = ground arith

see-Shares :
    (ss old : List ℕ) (v : RpcChannel.World) → Shares old v.services → Shares ss (see ss v).services
unfolding Setup.set_services
see-Shares ss old v h =
    elim v.services as (λ o. Shares old o → Shares ss (elim o [ none ↦ none | some x ↦ some ss ])) [
      | none ↦ λ k. tt
      | some x ↦ λ k. refl
    ]
      h

register_service-IsSynced : (s : ℕ) (w : World) → IsSynced w → IsSynced (register_service s w).1
unfolding register_service
register_service-IsSynced s w i = record {
  distinct = i.distinct;
  below = i.below;
  shared = λ c. see-Shares (w.services ++ (s ∷ [])) w.services (w.chans c) (i.shared c);
}

dropped-IsSynced : (c : ℕ) (w : World) → IsSynced w → IsSynced (on_channel_close c w)
unfolding on_channel_close
dropped-IsSynced c w i = record {
  distinct = remove-IsDistinct c w.channels i.distinct;
  below = λ d h. ground (arith, h, has-remove c d w.channels, i.below d);
  shared = i.shared;
}

set_chan-IsSynced :
    (c : ℕ) (v : RpcChannel.World) (w : World)
    → Shares w.services v.services
    → IsSynced w
    → IsSynced (set_chan c v w)
set_chan-IsSynced c v w h i = record {
  distinct = i.distinct;
  below = i.below;
  shared = λ d. choose w.services (c == d) v (w.chans d) h (i.shared d);
}

Shares-path : (ss : List ℕ) (o p : Option (List ℕ)) → p ≡ o → Shares ss o → Shares ss p
Shares-path ss o p e h = subst (Shares ss) (sym e) h

if-IsSynced : (b : Bool) (v w : World) → IsSynced v → IsSynced w → IsSynced (if b then v else w)
if-IsSynced true v w i j = i
if-IsSynced false v w i j = j

conn_closed-IsSynced : (env : Env) (c : ℕ) (w : World) → IsSynced w → IsSynced (conn_closed env c w)
unfolding conn_closed
conn_closed-IsSynced env c w i =
    let w' = set_chan c (Client.on_close env (w.chans c)) w in
    let kept : IsSynced w' =
      set_chan-IsSynced c (Client.on_close env (w.chans c)) w
        (Shares-path w.services none _ (closed-services env (w.chans c)) tt) i in
    if-IsSynced (not (w.chans c).installed) w _ i (
      if-IsSynced (w.chans c).close_cb (on_channel_close c w') w' (dropped-IsSynced c w' kept) kept)

stop-services : (v : RpcChannel.World) → (RpcChannel.Setup.stop v).1.services ≡ v.services
unfolding Setup.stop
stop-services v = ground arith

stop_each-IsSynced : (cs : List ℕ) (w : World) → IsSynced w → IsSynced (stop_each cs w)
unfolding stop_each
stop_each-IsSynced [] w i = i
stop_each-IsSynced (c ∷ cs) w i = stop_each-IsSynced cs _ (
    set_chan-IsSynced c (RpcChannel.Setup.stop (w.chans c)).1 w
      (Shares-path w.services _ _ (stop-services (w.chans c)) (i.shared c)) i)

abbrev pub made : ℕ → World → World
made c w =
    set_chan c
      (RpcChannel.Setup.accept_connect (on_channel_connect w.services)
        (record (w.chans c) { conn_cb = true; close_cb = true }))
      w

pub alloc-has : (w : World) → has (on_alloc w).0 (on_alloc w).1.channels ≡ true
unfolding on_alloc has
alloc-has w = rw ((==_iff w.next_chan w.next_chan).1 refl)

pub accept_lem :
    (c : ℕ) (w : World) (status : ℤ)
    → is_zero status ≡ true
    → has c w.channels ≡ true
    → on_accept c status w ≡ some (made c w)
unfolding on_accept
accept_lem c w status e h = rw (e, h)

pub refuse_lem :
    (c : ℕ) (w : World) (status : ℤ)
    → is_zero status ≡ false
    → on_accept c status w ≡ some (on_channel_close c w)
unfolding on_accept on_channel_close
refuse_lem c w status e = rw e

-- A connection that arrives is found in the set by `on_accept`.
arrive :
    (status : ℤ) (w : World)
    → IsSynced w
    → (w' : World) × (on_accept (on_alloc w).0 status (on_alloc w).1 ≡ some w') × IsSynced w'
arrive status w i =
    let (c, w1) = on_alloc w in
    elim (Bool-cases (is_zero status)) [
      | inl e ↦ (
        made c w1,
        accept_lem c w1 status e (alloc-has w),
        set_chan-IsSynced c _ w1
            (Shares-path w1.services _ _ (accepted-services w1.services (w1.chans c)) refl)
            (on_alloc-IsSynced w i),
      )
      | inr e ↦ (
        on_channel_close c w1,
        refuse_lem c w1 status e,
        dropped-IsSynced c w1 (on_alloc-IsSynced w i),
      )
    ]

pub step-IsSynced :
    (env : Env) (o : Op) (w : World)
    → IsSynced w
    → (w' : World) × (step env o w ≡ some w') × IsSynced w'
unfolding step close_all
step-IsSynced env (arrived status) w i = arrive status w i
step-IsSynced env (left c) w i = (conn_closed env c w, refl, conn_closed-IsSynced env c w i)
step-IsSynced env (registered s) w i =
    ((register_service s w).1, refl, register_service-IsSynced s w i)
step-IsSynced env ended w i = (stop_each w.channels w, refl, stop_each-IsSynced w.channels w i)
