-- ===== src/RpcChannel/Closing.antt =====
-- `on_close`: no call is left waiting.
use sdpf.Prelude.{
  ℕ, ◌≡◌, refl, sym, ap, ◌∙◌, none, List, [], ◌∷◌, ◌++◌, append_assoc, append-nil, if◌then◌else◌,
  arith, ==_iff, Option-cases, Bool-cases, inl, inr,
}
use sdpf.IoScheduler.{is_none}
use sdpf.RpcChannel.{World, Env, Event, completed, woken, closed, enetwork, emit, set_ec, finish}
use sdpf.RpcChannel.Client.{fail_all, clear_all, on_close}
use sdpf.RpcChannel.Pending.{callback-set_ec, finish_woken, finish_completed}

-- The user's callbacks leave the channel and its controllers alone.
abbrev pub IsPassive : Env → Type 0
IsPassive env = (cb : ℕ) (w : World) → env.user cb w ≡ w

-- How the owner of the controller hears of the end of its call.
abbrev pub notice : World → ℕ → Event
notice w p = if is_none (w.ctrls p).callback then woken p else completed p

abbrev pub notices : World → List (ℕ × ℕ) → List Event
notices w [] = []
notices w ((id, p) ∷ rs) = notice w p ∷ notices w rs

abbrev pub AllFailed : World → List (ℕ × ℕ) → Type 0
AllFailed w [] = Unit {0}
AllFailed w ((id, p) ∷ rs) = ((w.ctrls p).code ≡ enetwork) × AllFailed w rs

AllFailed-ctrls :
    (rs : List (ℕ × ℕ)) (v u : World) → v.ctrls ≡ u.ctrls → AllFailed v rs → AllFailed u rs
AllFailed-ctrls [] v u e h = tt
AllFailed-ctrls ((id, p) ∷ rs) v u e h =
    (ap (λ c. (c p).code) (sym e) ∙ h.0, AllFailed-ctrls rs v u e h.1)

clear_all_lem :
    (v : World)
    → ((clear_all v).requests ≡ [])
      × ((clear_all v).events ≡ v.events ++ (if v.close_cb then closed ∷ [] else []))
      × ((clear_all v).ctrls ≡ v.ctrls)
unfolding clear_all
clear_all_lem v = elim (Bool-cases v.close_cb) [
  | inl e ↦ (
    ground arith,
    ap
          (λ b.
            (if b
              then emit closed (record v { requests = []; services = none })
              else record v { requests = []; services = none }).events)
          e
        ∙ ap (λ b. v.events ++ (if b then closed ∷ [] else [])) (sym e),
    ground arith,
  )
  | inr e ↦ (ground arith, ground (arith, append-nil v.events), ground arith)
]

module _ (env : Env) (passive : IsPassive env) where
  -- One round of the loop.
  abbrev failed_one : ℕ → World → World
  failed_one p w = emit (notice w p) (set_ec p enetwork w)

  finish_passive : (p : ℕ) (w : World) → finish env p (set_ec p enetwork w) ≡ failed_one p w
  finish_passive p w = elim (Option-cases (w.ctrls p).callback) [
    | inl e ↦
        finish_woken env p (set_ec p enetwork w) (callback-set_ec p p enetwork w ∙ e)
        ∙ ap (λ o. emit (if is_none o then woken p else completed p) (set_ec p enetwork w)) (sym e)
    | inr (cb, e) ↦
        finish_completed env p cb (set_ec p enetwork w) (callback-set_ec p p enetwork w ∙ e)
        ∙ passive cb (emit (completed p) (set_ec p enetwork w))
        ∙ ap (λ o. emit (if is_none o then woken p else completed p) (set_ec p enetwork w)) (sym e)
  ]

  notices_after :
      (p : ℕ) (w : World) (rs : List (ℕ × ℕ)) → notices (failed_one p w) rs ≡ notices w rs
  notices_after p w [] = refl
  notices_after p w ((id, q) ∷ rs) =
      ap (λ o. (if is_none o then woken q else completed q) ∷ notices (failed_one p w) rs)
        (callback-set_ec p q enetwork w)
      ∙ ap (◌∷◌ (notice w q)) (notices_after p w rs)

  fail_all-events :
      (rs : List (ℕ × ℕ)) (w : World) → (fail_all env rs w).events ≡ w.events ++ notices w rs
  unfolding fail_all
  fail_all-events [] w = sym (append-nil w.events)
  fail_all-events ((id, p) ∷ rs) w =
      ap (λ v. (fail_all env rs v).events) (finish_passive p w)
      ∙ fail_all-events rs (failed_one p w)
      ∙ ap (λ es. (w.events ++ (notice w p ∷ [])) ++ es) (notices_after p w rs)
      ∙ append_assoc w.events (notice w p ∷ []) (notices w rs)

  code_kept :
      (rs : List (ℕ × ℕ)) (w : World) (q : ℕ)
      → (w.ctrls q).code ≡ enetwork
      → ((fail_all env rs w).ctrls q).code ≡ enetwork
  unfolding fail_all
  code_kept [] w q e = e
  code_kept ((id, p) ∷ rs) w q e =
      ap (λ v. ((fail_all env rs v).ctrls q).code) (finish_passive p w)
      ∙ code_kept rs (failed_one p w) q (ground (arith, e))

  fail_all-AllFailed : (rs : List (ℕ × ℕ)) (w : World) → AllFailed (fail_all env rs w) rs
  unfolding fail_all
  fail_all-AllFailed [] w = tt
  fail_all-AllFailed ((id, p) ∷ rs) w = (
    ap (λ v. ((fail_all env rs v).ctrls p).code) (finish_passive p w)
        ∙ code_kept rs (failed_one p w) p (rw ((==_iff p p).1 refl)),
    fail_all-AllFailed rs _,
  )

  fail_all-close_cb : (rs : List (ℕ × ℕ)) (w : World) → (fail_all env rs w).close_cb ≡ w.close_cb
  unfolding fail_all
  fail_all-close_cb [] w = refl
  fail_all-close_cb ((id, p) ∷ rs) w =
      ap (λ v. (fail_all env rs v).close_cb) (finish_passive p w)
      ∙ fail_all-close_cb rs (failed_one p w)

  -- When the connection of a client closes, and the callbacks change nothing in the channel, every
  -- pending request gets the network error and its owner is told, in the order of the table: its
  -- callback is run, or its waiting thread woken. The close callback, where there is one, is run
  -- last; the table is then empty.
  pub on_close_client :
      (w : World)
      → w.services ≡ none
      → ((on_close env w).requests ≡ [])
        × ((on_close env w).events
            ≡ w.events ++ (notices w w.requests ++ (if w.close_cb then closed ∷ [] else [])))
        × AllFailed (on_close env w) w.requests
  unfolding on_close
  on_close_client w c =
      let all = fail_all env w.requests w in
      let begun : on_close env w ≡ clear_all all =
        ap (λ o. clear_all (if is_none o then fail_all env w.requests w else w)) c in
      let (empty, events, ctrls) = clear_all_lem all in
      (
        ap (λ v. v.requests) begun ∙ empty,
        ap (λ v. v.events) begun
            ∙ events
            ∙ ap (λ es. es ++ (if all.close_cb then closed ∷ [] else []))
                (fail_all-events w.requests w)
            ∙ ap (λ b. (w.events ++ notices w w.requests) ++ (if b then closed ∷ [] else []))
                (fail_all-close_cb w.requests w)
            ∙ append_assoc w.events (notices w w.requests) (if w.close_cb then closed ∷ [] else []),
        AllFailed-ctrls w.requests all (on_close env w) (sym (ap (λ v. v.ctrls) begun ∙ ctrls))
            (fail_all-AllFailed w.requests w),
      )
