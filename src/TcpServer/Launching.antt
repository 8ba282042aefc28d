-- ===== src/TcpServer/Launching.antt =====
-- How a start of the server ends, and what the caller learns.
use sdpf.Prelude.{
  ℕ, ◌≡◌, refl, ap, ◌∙◌, Bool, true, false, none, some, List, [], ◌∷◌, ◌++◌, ℤ, pos, neg, is_zero,
  if◌then◌else◌, ◌>>=◌, Bool-cases, inl, inr, arith,
}
use sdpf.IoScheduler.{IoSchedulerImp}
use sdpf.IoScheduler.Hosted.{has_context}
use sdpf.TcpConnection.{SocketAddr}
use sdpf.TcpServer.{
  World, Env, Task, stops, UvCall, Notice, launched, closed, read_stop, close_handle, ask_active,
  ask_closing, call, set_started, tell, on_close, handle_closed, on_stop, start_listen, on_start,
  start, host,
}

-- What `on_start` asks libuv in.
abbrev pub begun : SocketAddr → World → World
begun a w = record w { server = record w.server { started = true; addr = a } }

module _ (env : Env) (quiet : (n : Notice) (w : World) → env.client n w ≡ some w) where
  told_by :
      (f : Bool) (n : Notice) (w : World)
      → tell env f n w ≡ some (record w { told = if f then w.told ++ (n ∷ []) else w.told })
  unfolding tell
  told_by true n w = quiet n _
  told_by false n w = refl

  stop_lem :
      (w : World)
      → ((v : World) → env.uv ask_closing v ≡ pos 0)
      → (cs : List UvCall) × (on_stop env (set_started true w)
          ≡ some (record (set_started false w) { calls = cs ++ (close_handle ∷ []) }))
  unfolding on_stop
  stop_lem w c = elim (Bool-cases (is_zero (env.uv ask_active (set_started false w)))) [
    | inl q ↦ (w.calls, rw (q, c (set_started false w)) refl)
    | inr q ↦ (w.calls ++ (read_stop ∷ []), rw (q, c (call read_stop (set_started false w))) refl)
  ]

  start_listen-server :
      (w : World) → (start_listen env w).1.server ≡ record w.server { server_data = true }
  unfolding start_listen
  start_listen-server w = ground arith

  start_listen-told : (w : World) → (start_listen env w).1.told ≡ w.told
  unfolding start_listen
  start_listen-told w = ground arith

  -- The server's world when libuv has answered: the listening itself changes the calls only.
  abbrev answered : SocketAddr → World → World
  answered a w = record (start_listen env (begun a w)).1 {
    server = record w.server { started = true; addr = a; server_data = true };
    told = w.told;
  }

  start_listen-answered :
      (a : SocketAddr) (w : World) → (start_listen env (begun a w)).1 ≡ answered a w
  start_listen-answered a w = λ i. record (start_listen env (begun a w)).1 {
    server = start_listen-server (begun a w) i;
    told = start_listen-told (begun a w) i;
  }

  -- What the launch callback is told.
  abbrev launching : ℤ → World → List Notice
  launching code w = if w.server.launch_cb then w.told ++ (launched code ∷ []) else w.told

  launch_lem :
      (a : SocketAddr) (w : World) (b : Bool)
      → is_zero (start_listen env (begun a w)).0 ≡ b
      → let w' = record (answered a w) { told = launching (start_listen env (begun a w)).0 w } in
        on_start env a (set_started false w) ≡ (if b then some w' else on_stop env w')
  unfolding on_start
  launch_lem a w b z =
      let code = (start_listen env (begun a w)).0 in
      ap
        (λ v. tell env v.server.launch_cb (launched code) v >>= λ w'.
          if is_zero code then some w' else on_stop env w')
        (start_listen-answered a w)
      ∙ ap (λ o. o >>= λ w'. if is_zero code then some w' else on_stop env w')
          (told_by w.server.launch_cb (launched code) (answered a w))
      ∙ ap (λ c. if c then some w' else on_stop env w') z
    where
      w' : World
      w' = record (answered a w) { told = launching (start_listen env (begun a w)).0 w }

  -- A start that one of the four libuv calls refuses tells the launch callback the code of the
  -- first that failed, takes the server down again and closes the handle; when libuv has closed it,
  -- the close callback is called. (The server was not up, its handle is not closing before, and the
  -- callbacks leave it alone.)
  pub on_start-refused :
      (a : SocketAddr) (w : World)
      → is_zero (start_listen env (begun a w)).0 ≡ false
      → ((v : World) → env.uv ask_closing v ≡ pos 0)
      → (w' : World) × ((on_start env a (set_started false w) >>= handle_closed env) ≡ some w')
        × (w'.server.started ≡ false)
        × (w'.told ≡ (
            if w.server.close_cb
            then launching (start_listen env (begun a w)).0 w ++ (closed ∷ [])
            else launching (start_listen env (begun a w)).0 w))
  unfolding handle_closed on_close
  on_start-refused a w z c =
      let v = record (answered a w) { told = launching (start_listen env (begun a w)).0 w } in
      let (cs, e) = stop_lem v c in
      (
        _,
        ap (λ o. o >>= handle_closed env) (launch_lem a w false z ∙ e)
            ∙ told_by w.server.close_cb closed
                (record (set_started false v) { calls = cs ++ (close_handle ∷ []) }),
        refl,
        refl,
      )

  -- A start that libuv accepts leaves the server up at the address, and tells the launch callback
  -- 0. (The server was not up, and the launch callback leaves it alone.)
  pub on_start-listens :
      (a : SocketAddr) (w : World)
      → is_zero (start_listen env (begun a w)).0 ≡ true
      → (w' : World) × (on_start env a (set_started false w) ≡ some w')
        × (w'.server ≡ record w.server { started = true; addr = a; server_data = true })
        × (w'.told ≡ launching (start_listen env (begun a w)).0 w)
  on_start-listens a w z = (_, launch_lem a w true z, refl, refl)

-- `start` checks its address less than `TcpConnection::start` does: with a null pointer it goes on to
-- copy the text, when the scheduler is initialised and the server is not up.
start_null :
    (env : Env) (me : ℕ) (send_ret : ℤ) (port : ℕ) (sch : IoSchedulerImp Task) (w : World)
    → start env me send_ret none port (record w {
      server = record w.server { context = some (record sch { init = true }); started = false };
    })
      ≡ none
unfolding start
start_null env me send_ret port sch w =
    let v = record w {
      server = record w.server { context = some (record sch { init = true }); started = false };
    } in
    ap (λ b. if b then some (neg 1, v) else none) (has_context (host env) me sch stops v refl)
