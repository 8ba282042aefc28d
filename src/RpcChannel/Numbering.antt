-- ===== src/RpcChannel/Numbering.antt =====
-- The ids of the calls: a client never gives a call an id that is in use.
use sdpf.Prelude.{
  ℕ, ◌+◌, ◌^◌, ◌<◌, ◌≡◌, refl, ap, subst, Option, none, some, List, [], ◌∷◌, arith, ℤ, ◌>>=◌,
  lookup,
}
use sdpf.RpcChannel.{World, Env}
use sdpf.RpcChannel.Client.{Waiting, call_method, process_response, on_close}
use sdpf.RpcChannel.Setup.{create}
use sdpf.RpcChannel.Calls.{next_id}
use sdpf.RpcChannel.Freshness.{IsFresh, IsFresh-mono, Ok, Ok-IsFresh, IsSteady}
use sdpf.RpcChannel.Keeping.{call_method-Ok, process_response-IsFresh, on_close-IsFresh}

-- What happens to a client: a call, by whatever thread, an answer, the end of the connection.
pub data Op : Type 0 where
  calls : Waiting → Option (List ℕ) → Option (List ℕ) → Option ℕ → Option ℕ → Option ℕ → Op
  answers : ℕ → ℤ → List ℕ → Op
  closes : Op

unfoldable pub step : Env → Op → World → Option World
step env (calls waiting service method request response p) w =
    call_method env waiting service method request response p w >>= λ r. some r.1
step env (answers id code body) w = some (process_response env id code body w)
step env closes w = some (on_close env w)

unfoldable pub run : Env → List Op → World → Option World
run env [] w = some w
run env (o ∷ os) w = step env o w >>= λ w1. run env os w1

abbrev pub count_calls : List Op → ℕ
count_calls [] = 0
count_calls (calls waiting service method request response p ∷ os) = 1 + count_calls os
count_calls (answers id code body ∷ os) = count_calls os
count_calls (closes ∷ os) = count_calls os

-- What a waiting thread lets happen keeps the counter and the table.
abbrev pub AllSteady : List Op → Type 0
AllSteady [] = Unit {0}
AllSteady (calls waiting service method request response p ∷ os) =
    IsSteady waiting.meanwhile × AllSteady os
AllSteady (answers id code body ∷ os) = AllSteady os
AllSteady (closes ∷ os) = AllSteady os

after_call :
    (c n : ℕ) (o : Option (ℤ × World)) (rest : World → Option World) (v : World)
    → Ok c o
    → ((o >>= λ r. some r.1) >>= rest) ≡ some v
    → ((w : World) → IsFresh c w → rest w ≡ some v → IsFresh n v)
    → IsFresh n v
after_call c n none rest v k e go = cc
after_call c n (some r) rest v k e go = go r.1 (Ok-IsFresh k) e

some_inj : (w v : World) → some w ≡ some v → w ≡ v
some_inj w v e = ap from e
  where
    from : Option World → World
    from none = w
    from (some x) = x

module _ (env : Env) (users : (cb : ℕ) → IsSteady (env.user cb)) where
  run-IsFresh :
      (os : List Op) (c : ℕ) (w v : World)
      → AllSteady os
      → c + count_calls os < 2 ^ 32
      → IsFresh c w
      → run env os w ≡ some v
      → IsFresh (c + count_calls os) v
  unfolding run step
  run-IsFresh [] c w v a room f e =
      subst (IsFresh (c + 0)) (some_inj w v e) (IsFresh-mono c (c + 0) w (omega arith) f)
  run-IsFresh (calls waiting service method request response p ∷ os) c w v a room f e =
      let longer : (c + 1) + count_calls os ≡ c + (1 + count_calls os) = omega arith in
      after_call (c + 1) (c + (1 + count_calls os))
        (call_method env waiting service method request response p w) (run env os) v
        (call_method-Ok env waiting a.0 service method request response p w
          (omega (arith, f.bounded)) f)
        e
        (λ w1 f1 e1.
          subst (λ n. IsFresh n v) longer (run-IsFresh os (c + 1) w1 v a.1 (omega arith) f1 e1))
  run-IsFresh (answers id code body ∷ os) c w v a room f e =
      run-IsFresh os c (process_response env id code body w) v a room
        (process_response-IsFresh env users id code body w f) e
  run-IsFresh (closes ∷ os) c w v a room f e =
      run-IsFresh os c (on_close env w) v a room (on_close-IsFresh env users w f) e

  pub create-IsFresh : IsFresh 0 create
  unfolding create lookup
  create-IsFresh = record { bounded = omega arith; above = λ k h. refl }

  -- However calls, answers and the ends of connections follow one another on a client, the number
  -- that the next call gets is not in use, if the pending ids were not above the counter at first,
  -- and the counter has not gone round since. (The callbacks, and what happens while a thread
  -- waits, do not enter ids above the counter or move it.) This is as long as no call runs into
  -- undefined behaviour.
  pub run-next_id :
      (os : List Op) (c : ℕ) (w v : World)
      → IsFresh c w
      → AllSteady os
      → c + count_calls os + 1 < 2 ^ 32
      → run env os w ≡ some v
      → lookup (next_id v) v.requests ≡ none
  run-next_id os c w v h a room e =
      let f = run-IsFresh os c w v a (omega arith) h e in
      f.above (next_id v) (omega (arith, f.bounded))
