-- ===== src/RpcChannel/Lookup.antt =====
-- `find_svc` against the search by the whole name.
use sdpf.Prelude.{
  ℕ, ◌≤◌, ◌≡◌, refl, true, Option, none, some, List, [], ◌∷◌, length, arith, if◌then◌else◌,
}
use sdpf.Frame.{same_bytes}
use sdpf.RpcChannel.{Service}
use sdpf.RpcChannel.Server.{starts_with, find_svc}

-- The first service of the name.
unfoldable pub find_whole : (ℕ → Service) → List ℕ → List ℕ → Option ℕ
find_whole service name [] = none
find_whole service name (s ∷ ss) =
    if same_bytes name (service s).name then some s else find_whole service name ss

-- No service of the list has a name that goes on behind the one asked for.
abbrev pub NoneLonger : (ℕ → Service) → List ℕ → List ℕ → Type 0
NoneLonger service name [] = Unit {0}
NoneLonger service name (s ∷ ss) =
    (starts_with name (service s).name ≡ true → length (service s).name ≤ length name)
    × NoneLonger service name ss

same-starts : (xs ys : List ℕ) → same_bytes xs ys ≡ true → starts_with xs ys ≡ true
unfolding starts_with
same-starts [] ys h = refl
same-starts (x ∷ xs) [] h = h
same-starts (x ∷ xs) (y ∷ ys) h = ground (arith, h, same-starts xs ys)

starts-same :
    (xs ys : List ℕ) → starts_with xs ys ≡ true → length ys ≤ length xs → same_bytes xs ys ≡ true
unfolding starts_with
starts-same [] [] h k = refl
starts-same [] (y ∷ ys) h k = absurd (omega arith)
starts-same (x ∷ xs) [] h k = h
starts-same (x ∷ xs) (y ∷ ys) h k = ground (arith, h, k, starts-same xs ys)

-- Where no service has a name that goes on behind the name asked for, `find_svc` finds what a search
-- by the whole name finds: the first service of that name, or none.
pub find_svc-find_whole :
    (service : ℕ → Service) (name ss : List ℕ)
    → NoneLonger service name ss
    → find_svc service name ss ≡ find_whole service name ss
unfolding find_svc find_whole
find_svc-find_whole service name [] h = refl
find_svc-find_whole service name (s ∷ ss) h = ground (
  arith,
  h.0,
  find_svc-find_whole service name ss h.1,
  same-starts name (service s).name,
  starts-same name (service s).name,
)
