-- ===== src/Link/Samples.antt =====
-- Two connections, to try sdpf.Link on.
use sdpf.Prelude.{refl, true, false, none, [], ◌∷◌, replicate, arith, pos, ℤ}
use sdpf.IoBuf.{IoBufImp}
use sdpf.TcpConnection.{World, UvQuery}
use sdpf.Link.Calling.{IsIdle}

abbrev pub uv : UvQuery → World → ℤ
uv q w = pos 0

abbrev pub world : IoBufImp → World
world b = record {
  conn = record {
    context = none;
    connected = true;
    handle_data = true;
    addr = record { ip = b'h' ∷ []; port = 80 };
    recv_buf = b;
    send_queue = [];
    conn_cb = false;
    recv_cb = true;
    send_cb = false;
    close_cb = false;
  };
  calls = [];
  told = [];
}

abbrev pub empty : IoBufImp
empty = record { buff = replicate 8 0; read_index = 0; write_index = 0 }

pub idle : IsIdle (world empty)
idle = record {
  valid = record { ordered = omega arith; within = omega arith; small = omega arith };
  empty = refl;
}
