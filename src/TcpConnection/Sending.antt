-- ===== src/TcpConnection/Sending.antt =====
-- What is accepted for sending is written in that order, one write at a time.
use sdpf.Prelude.{
  ℕ, ◌≤◌, ◌<◌, ◌≡◌, refl, sym, ap, ◌∙◌, Bool, true, false, Option, some, List, [], ◌∷◌, ◌++◌, ℤ,
  pos, length, take, leb, arith, append_assoc, length-append, map, map-append, append-nil,
  if◌then◌else◌, ◌>>=◌,
}
use sdpf.IoBuf.{IoBufImp, readable_bytes, begin_read}
use sdpf.TcpConnection.{
  World, Notice, sent, call, UvQuery, UvCall, write_bytes, max_send_buf, on_send, on_write,
  send_buf, next_write, tell,
}

abbrev pub write_of : IoBufImp → UvCall
write_of b = write_bytes (take (readable_bytes b) (begin_read b))

-- A buffer reaches `on_send`, or libuv has done the write that was started last.
pub data Event : Type 0 where
  arrives : IoBufImp → Event
  done : Event

module _ (uv : UvQuery → World → ℤ) (client : Notice → World → Option World) where
  -- The buffers accepted so far, and the world. Without a write under way libuv reports none.
  unfoldable pub step : Event → List IoBufImp × World → Option (List IoBufImp × World)
  step (arrives b) (acc, w) = on_send uv client b w >>= λ w'.
      some (if leb max_send_buf (length w.conn.send_queue) then acc else acc ++ (b ∷ []), w')
  step done (acc, w) = elim w.conn.send_queue [
    | [] ↦ some (acc, w)
    | b ∷ q ↦ on_write uv client (pos 0) w >>= λ w'. some (acc, w')
  ]

  unfoldable pub run : List Event → List IoBufImp × World → Option (List IoBufImp × World)
  run [] s = some s
  run (e ∷ es) s = step e s >>= run es

abbrev pub in_flight : List IoBufImp → List IoBufImp
in_flight [] = []
in_flight (b ∷ q) = b ∷ []

-- A connected world with this queue.
abbrev pub live : List IoBufImp → World → World
live q w = record w { conn = record w.conn { connected = true; send_queue = q } }

-- `gone` is written, the front of the queue is being written, and together with the queue they are
-- what was accepted.
pub record IsStreaming (before : List UvCall) (acc q : List IoBufImp) (calls : List UvCall)
    : Type 0 where
  pub gone : List IoBufImp
  pub accepted : acc ≡ gone ++ q
  pub written : calls ≡ before ++ map write_of (gone ++ in_flight q)
  pub bounded : length q ≤ max_send_buf

module _ (uv : UvQuery → World → ℤ) (client : Notice → World → Option World)
    (quiet : (n : Notice) (w : World) → client n w ≡ some w) where
  tell_quiet :
      (f : Bool) (n : Notice) (w : World)
      → (t : List Notice) × (tell uv client f n w ≡ some (record w { told = t }))
  unfolding tell
  tell_quiet true n w = (w.told ++ (n ∷ []), quiet n _)
  tell_quiet false n w = (w.told, refl)

  on_send_full :
      (b : IoBufImp) (q : List IoBufImp) (w : World)
      → leb max_send_buf (length q) ≡ true
      → (t : List Notice) × (on_send uv client b (live q w) ≡ some (live q (record w { told = t })))
  unfolding on_send
  on_send_full b q w h =
      let (t, e) = tell_quiet w.conn.send_cb (sent (pos (length q)) b) (live q w) in (t, rw h e)

  on_send_first :
      (b : IoBufImp) (w : World)
      → on_send uv client b (live [] w) ≡ some (live (b ∷ []) (call (write_of b) w))
  unfolding on_send send_buf
  on_send_first b w = refl

  on_send_behind :
      (b x : IoBufImp) (q : List IoBufImp) (w : World)
      → leb max_send_buf (length (x ∷ q)) ≡ false
      → on_send uv client b (live (x ∷ q) w) ≡ some (live (x ∷ (q ++ (b ∷ []))) w)
  unfolding on_send
  on_send_behind b x q w h = rw h refl

  on_write_last :
      (x : IoBufImp) (w : World)
      → (t : List Notice) × (on_write uv client (pos 0) (live (x ∷ []) w)
          ≡ some (live [] (record w { told = t })))
  unfolding on_write next_write
  on_write_last x w =
      let (t, e) = tell_quiet w.conn.send_cb (sent (pos 0) x) (live (x ∷ []) w) in
      (t, ap (λ o. o >>= next_write uv client) e)

  on_write_next :
      (x y : IoBufImp) (q : List IoBufImp) (w : World)
      → (t : List Notice) × (on_write uv client (pos 0) (live (x ∷ (y ∷ q)) w)
          ≡ some (live (y ∷ q) (call (write_of y) (record w { told = t }))))
  unfolding on_write next_write send_buf
  on_write_next x y q w =
      let (t, e) = tell_quiet w.conn.send_cb (sent (pos 0) x) (live (x ∷ (y ∷ q)) w) in
      (t, ap (λ o. o >>= next_write uv client) e)

  -- The next write is one more.
  written_next :
      (before : List UvCall) {calls : List UvCall} (gone : List IoBufImp) (b : IoBufImp)
      → calls ≡ before ++ map write_of gone
      → calls ++ (write_of b ∷ []) ≡ before ++ map write_of (gone ++ (b ∷ []))
  written_next before gone b h =
      ap (λ c. c ++ (write_of b ∷ [])) h
      ∙ append_assoc before (map write_of gone) (write_of b ∷ [])
      ∙ ap (before ++◌) (sym (map-append write_of gone (b ∷ [])))

  leb→le : (a b : ℕ) → leb a b ≡ false → b < a
  leb→le a b h = ground arith

  abbrev Steps : List UvCall → List IoBufImp → List IoBufImp → World → Event → Type 0
  Steps before acc q w e =
      (acc' : List IoBufImp) × (q' : List IoBufImp) × (w' : World) × (step uv client e
          (acc, live q w)
        ≡ some (acc', live q' w'))
      × IsStreaming before acc' q' w'.calls

  -- `step` after `on_send`, with the test decided.
  arrives_to :
      (acc q : List IoBufImp) (w : World) {w' : World} (b : IoBufImp) (t : Bool)
      → leb max_send_buf (length q) ≡ t
      → on_send uv client b (live q w) ≡ some w'
      → step uv client (arrives b) (acc, live q w) ≡ some (if t then acc else acc ++ (b ∷ []), w')
  unfolding step
  arrives_to acc q w {w'} b t h e =
      ap (λ o. o >>= λ w'. some (if leb max_send_buf (length q) then acc else acc ++ (b ∷ []), w'))
        e
      ∙ ap (λ c. some (if c then acc else acc ++ (b ∷ []), w')) h

  step_arrives :
      (before : List UvCall) (acc q : List IoBufImp) (w : World) (b : IoBufImp)
      → IsStreaming before acc q w.calls
      → (t : Bool) → leb max_send_buf (length q) ≡ t
      → Steps before acc q w (arrives b)
  step_arrives before acc q w b s true h =
      let (t, e) = on_send_full b q w h in
      (acc, q, record w { told = t }, arrives_to acc q w b true h e, s)
  step_arrives before acc [] w b s false h = (
    acc ++ (b ∷ []),
    b ∷ [],
    call (write_of b) w,
    arrives_to acc [] w b false h (on_send_first b w),
    record {
      gone = s.gone;
      accepted = ap (λ l. l ++ (b ∷ [])) (s.accepted ∙ append-nil s.gone);
      written =
          written_next before s.gone b
            (s.written ∙ ap (λ l. before ++ map write_of l) (append-nil s.gone));
      bounded = omega arith;
    },
  )
  step_arrives before acc (x ∷ q) w b s false h = (
    acc ++ (b ∷ []),
    x ∷ (q ++ (b ∷ [])),
    w,
    arrives_to acc (x ∷ q) w b false h (on_send_behind b x q w h),
    record {
      gone = s.gone;
      accepted = ap (λ l. l ++ (b ∷ [])) s.accepted ∙ append_assoc s.gone (x ∷ q) (b ∷ []);
      written = s.written;
      bounded = omega (arith, length-append q (b ∷ []), leb→le max_send_buf (length (x ∷ q)) h);
    },
  )

  step_done :
      (before : List UvCall) (acc q : List IoBufImp) (w : World)
      → IsStreaming before acc q w.calls
      → Steps before acc q w done
  unfolding step
  step_done before acc [] w s = (acc, [], w, refl, s)
  step_done before acc (x ∷ []) w s =
      let (t, e) = on_write_last x w in
      (
        acc,
        [],
        record w { told = t },
        ap (λ o. o >>= λ w'. some (acc, w')) e,
        record {
          gone = s.gone ++ (x ∷ []);
          accepted = s.accepted ∙ sym (append-nil (s.gone ++ (x ∷ [])));
          written =
              s.written
              ∙ ap (λ l. before ++ map write_of l) (sym (append-nil (s.gone ++ (x ∷ []))));
          bounded = omega arith;
        },
      )
  step_done before acc (x ∷ (y ∷ q)) w s =
      let (t, e) = on_write_next x y q w in
      (
        acc,
        y ∷ q,
        call (write_of y) (record w { told = t }),
        ap (λ o. o >>= λ w'. some (acc, w')) e,
        record {
          gone = s.gone ++ (x ∷ []);
          accepted = s.accepted ∙ sym (append_assoc s.gone (x ∷ []) (y ∷ q));
          written = written_next before (s.gone ++ (x ∷ [])) y s.written;
          bounded = omega (arith, s.bounded);
        },
      )

  step_lem :
      (before : List UvCall) (acc q : List IoBufImp) (w : World) (e : Event)
      → IsStreaming before acc q w.calls
      → Steps before acc q w e
  step_lem before acc q w (arrives b) s = step_arrives before acc q w b s _ refl
  step_lem before acc q w done s = step_done before acc q w s

  -- On a connected socket whose callbacks leave the connection alone, however sends and completed
  -- writes are interleaved, no step fails, the queue never holds more than 64 buffers, and what
  -- libuv was given is, in order, what was accepted: the buffers that have left the queue and the
  -- one at its front. A buffer is accepted if fewer than 64 are waiting.
  pub run-IsStreaming :
      (before : List UvCall) (es : List Event) (acc q : List IoBufImp) (w : World)
      → IsStreaming before acc q w.calls
      → (acc' : List IoBufImp) × (q' : List IoBufImp) × (w' : World) × (run uv client es
            (acc, live q w)
          ≡ some (acc', live q' w'))
        × IsStreaming before acc' q' w'.calls
  unfolding run
  run-IsStreaming before [] acc q w s = (acc, q, w, refl, s)
  run-IsStreaming before (e ∷ es) acc q w s =
      let (acc1, q1, w1, e1, s1) = step_lem before acc q w e s in
      let (acc2, q2, w2, e2, s2) = run-IsStreaming before es acc1 q1 w1 s1 in
      (acc2, q2, w2, ap (λ o. o >>= run uv client es) e1 ∙ e2, s2)
