-- ===== src/TcpConnection/Calls.antt =====
-- The methods that any thread may call: `start`, `stop` and the two `send`s of src/TcpConnection.cpp.
-- Each posts a task to the loop, or runs it at once in the loop's thread.
use sdpf.Prelude.{ℕ, not, Option, none, some, List, ℤ, neg, if◌then◌else◌, ◌==◌, take, ◌>>=◌}
use sdpf.IoBuf.{
  IoBufImp, initial_size, readable_bytes, begin_read, writable_bytes, ensure_writable, has_written,
  has_readed,
}
use sdpf.IoBuf
use sdpf.IoScheduler.Hosted.{Host, no_context, dispatch_task, failed_with}
use sdpf.TcpConnection.{
  World, Task, starts, stops, sends, UvQuery, Notice, on_start, on_stop, on_send,
}

-- `sizeof(SocketAddr::ip) - 1`
abbrev ip_room : ℕ
ip_room = 63

module _ (uv : UvQuery → World → ℤ) (client : Notice → World → Option World) where
  abbrev pub host : Host Task World
  host = record {
    context = λ w. w.conn.context;
    keep = λ sch w. record w { conn = record w.conn { context = some sch } };
    run_task = λ t w. elim t [
      | starts a ↦ on_start uv client a w
      | stops ↦ on_stop uv client w
      | sends b ↦ on_send uv client b w
    ];
  }

  unfoldable pub start : ℕ → ℤ → Option (List ℕ) → ℕ → World → Option (ℤ × World)
  start me send_ret none port w = some (neg 1, w)
  start me send_ret (some ip) port w =
      if port == 0
      then some (neg 1, w)
      else if no_context host w
      then some (neg 2, w)
      else if w.conn.connected
      then some (neg 3, w)
      else failed_with host (neg 4)
          (dispatch_task host me send_ret (starts (record { ip = take ip_room ip; port = port })) w)

  unfoldable pub stop : ℕ → ℤ → World → Option (ℤ × World)
  stop me send_ret w =
      if no_context host w
      then some (neg 1, w)
      else if not w.conn.connected
      then some (neg 2, w)
      else failed_with host (neg 3) (dispatch_task host me send_ret stops w)

  -- `send(const BufPtr&)`; `none` is an empty pointer.
  unfoldable pub send : ℕ → ℤ → Option IoBufImp → World → Option (ℤ × World)
  send me send_ret none w = some (neg 1, w)
  send me send_ret (some buf) w =
      if readable_bytes buf == 0
      then some (neg 1, w)
      else if no_context host w
      then some (neg 2, w)
      else if not w.conn.connected
      then some (neg 3, w)
      else dispatch_task host me send_ret (sends buf) w

  -- `send(const char*, size_t)`: the bytes are copied into a buffer of their own.
  unfoldable pub send_data : ℕ → ℤ → Option (List ℕ) → ℕ → World → Option (ℤ × World)
  send_data me send_ret none n w = some (neg 1, w)
  send_data me send_ret (some bytes) n w =
      if n == 0
      then some (neg 1, w)
      else if no_context host w
      then some (neg 2, w)
      else if not w.conn.connected
      then some (neg 3, w)
      else IoBuf.write (IoBuf.create n) (some bytes) n >>= λ r. send me send_ret (some r.1) w
