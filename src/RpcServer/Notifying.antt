-- ===== src/RpcServer/Notifying.antt =====
-- What `notify_all` does to every channel of a server.
use sdpf.Prelude.{
  ℕ, ◌^◌, ◌<◌, ◌≡◌, refl, sym, ap, ◌∙◌, subst, Bool, true, false, Option, none, some, List, [], ◌∷◌,
  ◌==◌, ==_iff, arith, ℤ, pos, has, IsDistinct, Bool-cases, Option-cases, inl, inr,
}
use sdpf.RpcChannel
use sdpf.RpcChannel.{Env, enoerror, response_meta}
use sdpf.RpcChannel.Server.{find_notify, notify}
use sdpf.RpcChannel.Calls.{==_refl}
use sdpf.RpcChannel.Pending.{Carried, Accepts}
use sdpf.RpcChannel.Serving.{Answered, response_meta-IsMeta}
use sdpf.RpcChannel.Subscribing.{Passed, offline, unserved, unasked, notify_sends, notify_passes}
use sdpf.RpcServer.{World, set_chan, notify_each, notify_all}

-- What becomes of one channel in a notification: it is connected and has services, and sends exactly
-- one response more, with the id of its notify request for the service; or it lacks one of the three,
-- and nothing happens.
pub data Told (env : Env) (s : ℕ) (body : List ℕ) (v v' : RpcChannel.World) : Type 0 where
  sent_one :
      (id : ℕ) (ss : List ℕ)
      → v.conn ≡ some true
      → v.services ≡ some ss
      → find_notify s v.requests ≡ some id
      → Answered env id enoerror body v v'
      → Told env s body v v'
  left_out : Passed s v → v' ≡ v → Told env s body v v'

apart : (b c : ℕ) (cs : List ℕ) → has b cs ≡ true → has c cs ≡ false → (c == b) ≡ false
apart b c cs h k = elim (Bool-cases (c == b)) [
  | inl e ↦ let same : has c cs ≡ has b cs = ap (λ x. has x cs) ((==_iff c b).0 e) in cc
  | inr e ↦ e
]

touched :
    (c b : ℕ) (v : RpcChannel.World) (w : World) → (c == b) ≡ true → (set_chan c v w).chans b ≡ v
touched c b v w e = rw e

untouched :
    (c b : ℕ) (v : RpcChannel.World) (w : World)
    → (c == b) ≡ false
    → (set_chan c v w).chans b ≡ w.chans b
untouched c b v w e = rw e

head_out : (b c : ℕ) (cs : List ℕ) → has b (c ∷ cs) ≡ false → (c == b) ≡ false
unfolding has
head_out b c cs h = ground (arith, h)

tail_out : (b c : ℕ) (cs : List ℕ) → has b (c ∷ cs) ≡ false → has b cs ≡ false
unfolding has
tail_out b c cs h = ground (arith, h)

tail_in : (b c : ℕ) (cs : List ℕ) → has b cs ≡ true → has b (c ∷ cs) ≡ true
unfolding has
tail_in b c cs h = ground (arith, h)

in_tail : (b c : ℕ) (cs : List ℕ) → has b (c ∷ cs) ≡ true → (c == b) ≡ false → has b cs ≡ true
unfolding has
in_tail b c cs h e = ground (arith, h, e)

module _ (env : Env) (s msg : ℕ) (body : List ℕ)
    (rel : RpcChannel.World → RpcChannel.World → Type 0) (one : (v : RpcChannel.World) → Type 0)
    (tells : (v : RpcChannel.World)
      → one v
      → (ret : ℤ) × (v' : RpcChannel.World) × (notify env (some s) (some msg) v ≡ some (ret, v'))
        × rel v v') where
  -- The channels of a list, which are distinct, are told once each; the others are left alone.
  notify_each_lem :
      (cs : List ℕ) (w : World)
      → IsDistinct cs
      → ((c : ℕ) → has c cs ≡ true → one (w.chans c))
      → (w' : World) × (notify_each env s msg cs w ≡ some w')
        × ((c : ℕ) → has c cs ≡ true → rel (w.chans c) (w'.chans c))
        × ((c : ℕ) → has c cs ≡ false → w'.chans c ≡ w.chans c)
        × (w'.channels ≡ w.channels)
  unfolding notify_each has
  notify_each_lem [] w d h = (w, refl, λ c e. ground (arith, e), λ c e. refl, refl)
  notify_each_lem (c ∷ cs) w d h =
      let (ret, v, e, r) = tells (w.chans c) (h c (rw (==_refl c))) in
      let (w', e', told, others, same) = notify_each_lem cs (set_chan c v w) d.1 (λ b k.
        subst one (sym (untouched c b v w (apart b c cs k d.0))) (h b (tail_in b c cs k))) in
      (
        w',
        rw e e',
        λ b k. elim (Bool-cases (c == b)) [
          | inl q ↦
              subst (λ x. rel (w.chans x) (w'.chans x)) ((==_iff c b).0 q)
                (subst (rel (w.chans c)) (sym (others c d.0 ∙ touched c c v w (==_refl c))) r)
          | inr q ↦
              subst (λ x. rel x (w'.chans b)) (untouched c b v w q) (told b (in_tail b c cs k q))
        ],
        λ b k. others b (tail_out b c cs k) ∙ untouched c b v w (head_out b c cs k),
        same,
      )

-- The requests of a channel have 32-bit ids.
abbrev pub IsNumbered : ℕ → RpcChannel.World → Type 0
IsNumbered s v = (id : ℕ) → find_notify s v.requests ≡ some id → id < 2 ^ 32

module _ (env : Env) (s msg : ℕ) (body : List ℕ) (accepts : Accepts env)
    (fits : (id : ℕ) (h : id < 2 ^ 32)
      → Carried env
          (response_meta id enoerror)
          (response_meta-IsMeta id enoerror h (omega arith))
          (some msg)
          body) where
  tells :
      (v : RpcChannel.World)
      → IsNumbered s v
      → (ret : ℤ) × (v' : RpcChannel.World) × (notify env (some s) (some msg) v ≡ some (ret, v'))
        × Told env s body v v'
  tells v n = elim (Option-cases (find_notify s v.requests)) [
    | inl e ↦ passed (unasked e)
    | inr (id, e) ↦ elim (Option-cases v.conn) [
      | inl c ↦ passed (offline (ap is_online c))
      | inr (b, c) ↦ elim (Option-cases v.services) [
        | inl n ↦ passed (unserved n)
        | inr (ss, q) ↦ elim (Bool-cases b) [
          | inl t ↦
              let (v', sends, answered) =
                notify_sends env s msg id ss body v (n id e) (c ∙ ap some t) q e accepts
                  (fits id (n id e)) in
              (pos 0, v', sends, sent_one id ss (c ∙ ap some t) q e answered)
          | inr f ↦ passed (offline (ap is_online c ∙ f))
        ]
      ]
    ]
  ]
    where
      is_online : Option Bool → Bool
      is_online none = false
      is_online (some b) = b

      passed :
          Passed s v
          → (ret : ℤ) × (v' : RpcChannel.World) × (notify env (some s) (some msg) v
              ≡ some (ret, v'))
            × Told env s body v v'
      passed p =
          let (ret, sends, z) = notify_passes env s msg v p in (ret, v, sends, left_out p refl)

  -- Where every connection takes packets and the message fits one, `notify_all` for a service on
  -- distinct channels whose requests have 32-bit ids goes through all of them, whatever their order: a
  -- channel of the set sends exactly one response, with the id of its notify request for the service,
  -- which it does only if it is connected and has services and such a request; a channel that lacks
  -- one of these, and those outside the set, are left as they are, and so is the set.
  pub notify_all-Told :
      (w : World)
      → IsDistinct w.channels
      → ((c : ℕ) → has c w.channels ≡ true → IsNumbered s (w.chans c))
      → (w' : World) × (notify_all env s msg w ≡ some w')
        × ((c : ℕ) → has c w.channels ≡ true → Told env s body (w.chans c) (w'.chans c))
        × ((c : ℕ) → has c w.channels ≡ false → w'.chans c ≡ w.chans c)
        × (w'.channels ≡ w.channels)
  unfolding notify_all
  notify_all-Told w d n =
      notify_each_lem env s msg body (Told env s body) (IsNumbered s) tells w.channels w d n
