-- ===== src/MsgService/Methods.antt =====
-- The table of methods: which names it has, and where its places lead.
use sdpf.Prelude.{
  ℕ, zero, suc, ◌≡◌, refl, sym, ap, Bool, true, false, Option, none, some, List, [], ◌∷◌, ◌++◌, ℤ,
  pos, neg, if◌then◌else◌,
}
use sdpf.RpcController.{RpcControllerImp}
use sdpf.RpcChannel.Server.{starts_with}
use sdpf.MsgService.{
  SvcMethod, methods, RpcMessage, notify_name, test_name, echo_name, find_from, find_method,
  method_at, is_outside, new_request, new_response, call_method,
}

-- The name of a place, if there is one.
abbrev name_of : Option SvcMethod → List ℕ
name_of none = []
name_of (some m) = m.name

-- Each method of the table is found at its place by its own name, and by every name that begins
-- with it.
pub find_method_longer :
    (i : ℕ) (m : SvcMethod) (rest : List ℕ)
    → method_at methods i ≡ some m
    → find_method (some (m.name ++ rest)) ≡ pos i
unfolding methods method_at find_method find_from starts_with
find_method_longer zero m rest e = ap (λ n. find_method (some (n ++ rest))) (sym (ap name_of e))
find_method_longer (suc zero) m rest e =
    ap (λ n. find_method (some (n ++ rest))) (sym (ap name_of e))
find_method_longer (suc (suc zero)) m rest e =
    ap (λ n. find_method (some (n ++ rest))) (sym (ap name_of e))
find_method_longer (suc (suc (suc i))) m rest e = cc

-- The two constructors of a place give an object, or null.
abbrev Leads : ℤ → Type 0
Leads id =
    (request : Option RpcMessage) × (response : Option RpcMessage) × (new_request id ≡ some request)
    × (new_response id ≡ some response)

leads :
    (a b c : Bool) → Leads (if a then pos 0 else if b then pos 1 else if c then pos 2 else neg 2)
unfolding new_request new_response is_outside method_at methods
leads true b c = (_, _, refl, refl)
leads false true c = (_, _, refl, refl)
leads false false true = (_, _, refl, refl)
leads false false false = (_, _, refl, refl)

-- Whatever name a client asks for, null and empty ones included, the constructors for what
-- `find_method` answers stay inside the table.
pub find_method-Leads :
    (name : Option (List ℕ))
    → (request : Option RpcMessage) × (response : Option RpcMessage) × (new_request
          (find_method name)
        ≡ some request)
      × (new_response (find_method name) ≡ some response)
unfolding find_method find_from methods new_request new_response is_outside
find_method-Leads none = (_, _, refl, refl)
find_method-Leads (some []) = (_, _, refl, refl)
find_method-Leads (some (x ∷ xs)) =
    leads (starts_with notify_name (x ∷ xs)) (starts_with test_name (x ∷ xs))
      (starts_with echo_name (x ∷ xs))

-- The check of the method's number lets through the number of methods, which is no place.
pub new_request_outside : new_request (pos 3) ≡ none
unfolding new_request is_outside method_at methods
new_request_outside = refl

-- A call of "notify", or of a longer name, runs no callback: the request is never answered.
call_method_notify :
    (rest : List ℕ) (request response : Option RpcMessage) (c : RpcControllerImp)
    → call_method (find_method (some (notify_name ++ rest))) request response (some c)
      ≡ some (record { response = response; ctrl = some c; ran = none })
unfolding call_method find_method find_from starts_with methods is_outside method_at
call_method_notify rest request response c = refl
