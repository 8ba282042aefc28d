-- ===== src/Link.antt =====
-- A connection with a channel behind it: how the bytes of the network reach the messages. It joins
-- `on_alloc` and `on_read` of src/TcpConnection.cpp with `on_recv` of src/RpcChannel.cpp, which is the
-- connection's receive callback.
--
-- libuv asks for memory, stores what has come there, at most as many bytes as it was given room for,
-- and reports their number; where it was given no memory, or none of any length, it reports the error
-- `enobufs`. `none` is undefined behaviour.
pub mod Reading
pub mod Streaming
pub mod Pipeline
pub mod Calling
pub mod Refusing
pub mod Notifying
pub mod Subscribing
pub mod Limits
pub mod Samples
pub mod Stream
mod Tests
mod CallTests
mod PipelineTests
use sdpf.Prelude.{
  ℕ, zero, suc, ◌+◌, Bool, false, not, ◌&&◌, Option, none, some, List, [], ◌∷◌, ◌==◌, length,
  if◌then◌else◌, ℤ, pos, negsuc, ◌>>=◌,
}
use sdpf.IoBuf.{memcpy_in, readable_bytes}
use sdpf.Dispatcher.{MsgPack, MetaRpc}
use sdpf.Frame.{on_recv}
use sdpf.TcpConnection.{World, Notice, UvQuery, set_recv_buf, on_alloc, on_read}
use sdpf.TcpConnection.Calls.{stop}

-- The connection, and the state of the channel.
pub record Link (S : Type 0) : Type 0 where
  pub conn : World
  pub state : S

-- The other callbacks leave the connection alone; the receive callback is `receive`, below.
abbrev pub alone : Notice → World → Option World
alone n w = some w

-- Whether `on_read` calls the receive callback.
abbrev pub is_heard : ℤ → World → Bool
is_heard (pos n) w = w.conn.connected && (not (n == 0) && w.conn.recv_cb)
is_heard (negsuc n) w = false

-- What libuv does with the memory that starts at index `at` of the vector.
unfoldable pub fill : ℕ → Option (ℕ × ℕ) → List ℕ → World → Option (ℤ × World)
fill enobufs none bytes w = some (negsuc enobufs, w)
fill enobufs (some (at, zero)) bytes w = some (negsuc enobufs, w)
fill enobufs (some (at, suc room)) bytes w =
    memcpy_in w.conn.recv_buf.buff at bytes (length bytes) >>= λ buff.
    some (pos (length bytes), set_recv_buf (record w.conn.recv_buf { buff = buff }) w)

module _ {S : Type 0} (uv : UvQuery → World → ℤ) (enobufs me : ℕ) (send_ret : ℤ) (mp : MsgPack)
    (process : MetaRpc → List ℕ → S → S) where
  -- The receive callback: `on_recv`, which calls `conn->stop()` where a message cannot be read.
  unfoldable pub receive : Link S → Option (Link S)
  receive l =
      on_recv mp process (readable_bytes l.conn.conn.recv_buf + 1) l.conn.conn.recv_buf l.state
      >>= λ r.
          (let w = set_recv_buf r.buffer l.conn in
            if r.stopped
            then (stop uv alone me send_ret w >>= λ o.
                some (record { conn = o.1; state = r.state }))
            else some (record { conn = w; state = r.state }))

  -- One read of libuv, which has these bytes for the connection.
  unfoldable pub arrive : List ℕ → Link S → Option (Link S)
  arrive bytes l = on_alloc uv alone l.conn >>= λ m. fill enobufs m.0 bytes m.1 >>= λ f.
      on_read uv alone f.0 f.1 >>= λ w.
      (let l' = record l { conn = w } in if is_heard f.0 f.1 then receive l' else some l')

  unfoldable pub arrive_all : List (List ℕ) → Link S → Option (Link S)
  arrive_all [] l = some l
  arrive_all (c ∷ cs) l = arrive c l >>= arrive_all cs
