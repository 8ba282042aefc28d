-- ===== src/TcpConnection/Posting.antt =====
-- From the caller's thread to the loop: what `send` posts.
use sdpf.Prelude.{
  ℕ, ◌≤◌, ◌<◌, ◌≡◌, refl, ◌∙◌, ap, true, false, Option, some, List, [], ◌∷◌, ◌++◌, ℤ, pos, length,
  take, arith, ◌>>=◌, inl, inr, length-replicate, lt→==_false, neg, if◌then◌else◌, length-take,
}
use sdpf.IoBuf.{IoBufImp, create, write, readable_bytes}
use sdpf.IoBuf.Invariant.{IsValid, contents, vector_limit, create-IsValid, length-contents}
use sdpf.IoBuf.Stream.{write_appends}
use sdpf.IoScheduler.{IoSchedulerImp, in_loop_thread}
use sdpf.TcpConnection.{World, Notice, UvQuery, Task, sends}
use sdpf.IoScheduler.Hosted.{no_context, dispatch_task, dispatch_away}
use sdpf.TcpConnection.Calls.{host, send, send_data}

-- A connection that is up, in a scheduler that is initialised.
abbrev pub up : IoSchedulerImp Task → World → World
up sch w = record w {
  conn = record w.conn { context = some (record sch { init = true }); connected = true };
}

-- The copy that `send` makes.
copied :
    (bytes : List ℕ) (n : ℕ)
    → 0 < n
    → n < vector_limit
    → n ≤ length bytes
    → (b : IoBufImp) × (write (create n) (some bytes) n ≡ some (pos 0, b))
      × (contents b ≡ take n bytes)
      × IsValid b
unfolding create
copied bytes n p v h =
    let (b, e, a) =
      write_appends (create n) bytes n (create-IsValid n v)
        (inr (omega (arith, length-replicate {A = ℕ} n 0)))
        (inl (omega (arith, length-replicate {A = ℕ} n 0))) p h in
    (b, e, a.held ∙ refl, a.valid)

module _ (uv : UvQuery → World → ℤ) (client : Notice → World → Option World) where
  send_lem :
      (me : ℕ) (sch : IoSchedulerImp Task) (b : IoBufImp) (w : World)
      → in_loop_thread sch me ≡ false
      → 0 < readable_bytes b
      → send uv client me (pos 0) (some b) (up sch w)
        ≡ some (pos 0, up (record sch { queue_task = sch.queue_task ++ (sends b ∷ []) }) w)
  unfolding send no_context
  send_lem me sch b w away h =
      ap
        (λ t.
          if t
          then some (neg 1, up sch w)
          else dispatch_task (host uv client) me (pos 0) (sends b) (up sch w))
        (lt→==_false (readable_bytes b) h)
      ∙ dispatch_away (host uv client) me sch (sends b) (up sch w) refl away

  -- `send` of `n` bytes from another thread, on a connection that is up and with a wakeup that
  -- reaches the loop, returns 0 and posts, behind the tasks there are, one that sends exactly these
  -- bytes: a copy, which does not depend on the caller's memory any more.
  pub send_data_posts :
      (me : ℕ) (sch : IoSchedulerImp Task) (bytes : List ℕ) (n : ℕ) (w : World)
      → in_loop_thread sch me ≡ false
      → 0 < n
      → n < vector_limit
      → n ≤ length bytes
      → (b : IoBufImp) × (send_data uv client me (pos 0) (some bytes) n (up sch w)
          ≡ some (pos 0, up (record sch { queue_task = sch.queue_task ++ (sends b ∷ []) }) w))
        × (contents b ≡ take n bytes)
  unfolding send_data no_context
  send_data_posts me sch bytes n w away p v h =
      let (b, e, c, i) = copied bytes n p v h in
      (
        b,
        ap
              (λ t.
                if t
                then some (neg 1, up sch w)
                else (write (create n) (some bytes) n >>= λ r.
                    send uv client me (pos 0) (some r.1) (up sch w)))
              (lt→==_false n p)
            ∙ ap (λ o. o >>= λ r. send uv client me (pos 0) (some r.1) (up sch w)) e
            ∙ send_lem me sch b w away
                (omega (arith, length-contents i, ap length c, length-take n bytes)),
        c,
      )
