-- ===== src/RpcChannel/Lifetime.antt =====
-- How long a channel and its connection live.
use sdpf.Prelude.{
  ℕ, ◌≡◌, refl, ap, ◌∙◌, true, not, ◌&&◌, ◌||◌, Option, some, List, [], ◌∷◌, ◌==◌, ℤ, ◌≢◌,
  Bool-cases, inl, inr, arith, ◌>>=◌,
}
use sdpf.RpcChannel.{World}
use sdpf.RpcChannel.Setup
use sdpf.RpcChannel.Owners.{
  Owned, make_shared, release, release_conn, share, share_conn, connection, start, accept_connect,
  accept_conn, call_back, Op, shares, shares_conn, releases, connects, releases_conn, accepts_conn,
  starts, accepts, calls_back, step, run,
}

-- Each lives exactly as long as a pointer to it is held, and a channel whose address the
-- connection's callbacks have holds itself.
pub record IsCounted (o : Owned) : Type 0 where
  pub chan : o.chan_live ≡ (not (o.chan_refs == 0) || o.chan_self)
  pub member : o.member ≡ o.chan_live
  pub conn : o.conn_live ≡ (not (o.conn_refs == 0) || (o.member || o.conn_self))
  pub bound : (o.chan.bound || o.chan.installed) ≡ true → o.chan_self ≡ true

pub make_shared-IsCounted : IsCounted make_shared
unfolding make_shared Setup.create
make_shared-IsCounted = record { chan = refl; member = refl; conn = refl; bound = λ e. cc }

release-IsCounted : (o : Owned) → IsCounted o → IsCounted (release o)
unfolding release
release-IsCounted o h = ground (arith, h)

release_conn-IsCounted : (o : Owned) → IsCounted o → IsCounted (release_conn o)
unfolding release_conn
release_conn-IsCounted o h = ground (arith, h)

share-IsCounted : (o : Owned) → IsCounted o → IsCounted (share o)
unfolding share
share-IsCounted o h = ground (arith, h)

share_conn-IsCounted : (o : Owned) → IsCounted o → IsCounted (share_conn o)
unfolding share_conn
share_conn-IsCounted o h = ground (arith, h)

connection-IsCounted : (o : Owned) → IsCounted o → IsCounted (connection o)
unfolding connection
connection-IsCounted o h = ground (arith, h)

accept_conn-IsCounted : (o : Owned) → IsCounted o → IsCounted (accept_conn o)
unfolding accept_conn
accept_conn-IsCounted o h = ground (arith, h)

start-IsCounted :
    (ret : ℤ) (ip : Option (List ℕ)) (port : ℕ) (o : Owned)
    → IsCounted o
    → IsCounted (start ret ip port o)
unfolding start
start-IsCounted ret ip port o h = ground (arith, h)

accept_connect-IsCounted :
    (client : ℤ → World → World) (o : Owned) → IsCounted o → IsCounted (accept_connect client o)
unfolding accept_connect
accept_connect-IsCounted client o h = ground (arith, h)

-- A step finds the channel whose callback it runs, and leaves `pif_` set where it is.
abbrev Steps : Owned → Option Owned → Type 0
Steps o r = (o' : Owned) × (r ≡ some o') × IsCounted o' × (o.chan_self ≡ true → o'.chan_self ≡ true)

call_back-Steps : (f : World → World) (o : Owned) → IsCounted o → Steps o (call_back f o)
unfolding call_back
call_back-Steps f o h = elim (Bool-cases (o.conn_live && (o.chan.bound || o.chan.installed))) [
  | inl q ↦
      let self : o.chan_self ≡ true = ground (arith, h, q) in
      let live : o.chan_live ≡ true = ground (arith, h, self) in
      (
        record o { chan = f o.chan },
        ground (arith, q, live),
        record { chan = h.chan; member = h.member; conn = h.conn; bound = λ e. self },
        λ e. e,
      )
  | inr q ↦ (o, ground (arith, q), h, λ e. e)
]

step-Steps : (op : Op) (o : Owned) → IsCounted o → Steps o (step op o)
unfolding step share share_conn release release_conn connection accept_conn start accept_connect
step-Steps shares o h = (_, refl, share-IsCounted o h, λ e. ground (arith, e))
step-Steps releases o h = (_, refl, release-IsCounted o h, λ e. ground (arith, e))
step-Steps shares_conn o h = (_, refl, share_conn-IsCounted o h, λ e. ground (arith, e))
step-Steps connects o h = (_, refl, connection-IsCounted o h, λ e. ground (arith, e))
step-Steps releases_conn o h = (_, refl, release_conn-IsCounted o h, λ e. ground (arith, e))
step-Steps accepts_conn o h = (_, refl, accept_conn-IsCounted o h, λ e. ground (arith, e))
step-Steps (starts ret ip port) o h =
    (_, refl, start-IsCounted ret ip port o h, λ e. ground (arith, e))
step-Steps (accepts client) o h =
    (_, refl, accept_connect-IsCounted client o h, λ e. ground (arith, e))
step-Steps (calls_back f) o h = call_back-Steps f o h

run-Steps : (ops : List Op) (o : Owned) → IsCounted o → Steps o (run ops o)
unfolding run
run-Steps [] o h = (o, refl, h, λ e. e)
run-Steps (op ∷ ops) o h =
    let (o1, e, h1, keeps) = step-Steps op o h in
    let (o2, e2, h2, keeps2) = run-Steps ops o1 h1 in
    (o2, ap (λ r. r >>= run ops) e ∙ e2, h2, λ q. keeps2 (keeps q))

-- However a channel and its connection are started, accepted, shared and let go of, and whatever the
-- callbacks do, the connection never calls back a channel that has been destroyed, and each of the
-- two lives exactly as long as there is a pointer to it: a held one, its own, or the channel's.
pub run-IsCounted : (ops : List Op) → (o : Owned) × (run ops make_shared ≡ some o) × IsCounted o
run-IsCounted ops =
    let (o, e, h, keeps) = run-Steps ops make_shared make_shared-IsCounted in (o, e, h)

-- The calls by which a channel is put to use.
pub data IsUse : Op → Type 0 where
  by_start : {ret : ℤ} {ip : Option (List ℕ)} {port : ℕ} → IsUse (starts ret ip port)
  by_accept : {client : ℤ → World → World} → IsUse (accepts client)

use_lem :
    {op : Op} (o : Owned)
    → IsUse op
    → o.chan_refs ≢ 0
    → (o1 : Owned) → step op o ≡ some o1
    → o1.chan_self ≡ true
unfolding step start accept_connect
use_lem o by_start held o1 e = ground (arith, e, held)
use_lem o by_accept held o1 e = ground (arith, e, held)

-- From its first `start` or `accept_connect` on, which are called through a pointer to the channel,
-- and even where `start` is refused, a channel and its connection are never destroyed, whatever
-- pointers are let go of, and however the connection ends.
pub run_leaks :
    {op : Op} (ops : List Op) (o : Owned)
    → IsUse op
    → IsCounted o
    → o.chan_refs ≢ 0
    → (o' : Owned) × (run (op ∷ ops) o ≡ some o') × (o'.chan_live ≡ true) × (o'.conn_live ≡ true)
unfolding run
run_leaks {op} ops o u h held =
    let (o1, e, h1, keeps1) = step-Steps op o h in
    let (o2, e2, h2, keeps2) = run-Steps ops o1 h1 in
    let self : o2.chan_self ≡ true = keeps2 (use_lem o u held o1 e) in
    (o2, ap (λ r. r >>= run ops) e ∙ e2, ground (arith, h2, self), ground (arith, h2, self))
