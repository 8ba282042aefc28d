-- ===== src/IoBuf/History.antt =====
-- A buffer under any sequence of calls of its owner: no byte is lost, invented or reordered.
use native.Mathlib.Decide.{dec_lt, dec_le}
use sdpf.Prelude.{
  ℕ, zero, suc, ◌+◌, ◌-◌, ◌<◌, ◌≡◌, sym, ap, ◌∙◌, ◌≢◌, ◌⊎◌, inl, inr, true, Option, none, some,
  List, [], ◌∷◌, ◌++◌, length, take, arith, ℤ, pos, negsuc, append-nil, append_assoc, take_all,
  take-append-drop,
}
use sdpf.IoBuf.{IoBufImp, max_size, write, read, ensure_writable, has_readall}
use sdpf.IoBuf.Invariant.{
  IsValid, contents, has_readall-IsValid, contents-has_readall, vector_limit,
}
use sdpf.IoBuf.Space.{Fits, IsSafe, Granted, ensure_writable_grants, ensure_writable_refuses}
use sdpf.IoBuf.Overflow.{ensure_writable_overlaps}
use sdpf.IoBuf.Stream.{
  write_appends, write_refuses, write_overlaps, write_nothing, read_takes, read_refuses,
  read_nothing,
}

-- The three conditions that decide what `ensure_writable` does.
abbrev Cases : IoBufImp → ℕ → Type 0
Cases b n =
    (IsSafe b n × Fits b n)
    ⊎ ((length b.buff < n + (b.write_index - b.read_index))
        × (max_size < n + (b.write_index - b.read_index)))
    ⊎ ((b.read_index ≢ 0)
        × (b.read_index + b.read_index < b.write_index)
        × (length b.buff - b.write_index < n)
        × Fits b n)

space-Cases : (b : IoBufImp) (n : ℕ) → Cases b n
space-Cases b n = grind arith

pub data Call : Type 0 where
  puts : List ℕ → Call
  gets reserves : ℕ → Call
  drops_all : Call

-- The bytes that a call hands in, those that it hands out, and the buffer afterwards.
abbrev pub Outcome : Type 0
Outcome = Option (List ℕ × List ℕ × IoBufImp)

abbrev put_outcome : List ℕ → Option (ℤ × IoBufImp) → Outcome
put_outcome ys none = none
put_outcome ys (some (pos zero, b')) = some (ys, [], b')
put_outcome ys (some (pos (suc k), b')) = some ([], [], b')
put_outcome ys (some (negsuc k, b')) = some ([], [], b')

abbrev reserve_outcome : Option (ℤ × IoBufImp) → Outcome
reserve_outcome none = none
reserve_outcome (some (ret, b')) = some ([], [], b')

abbrev get_outcome : ℤ × List ℕ × IoBufImp → Outcome
get_outcome (ret, bytes, b') = some ([], bytes, b')

pub step : IoBufImp → Call → Outcome
step b (puts ys) = put_outcome ys (write b (some ys) (length ys))
step b (gets n) = get_outcome (read b true n)
step b (reserves n) = reserve_outcome (ensure_writable b n)
step b drops_all = some ([], contents b, has_readall b)

-- A call keeps the invariant, and what is held and handed in is handed out and held.
abbrev Kept : IoBufImp → Outcome → Type 0
Kept b none = Unit {0}
Kept b (some (took, gave, b')) = IsValid b' × (contents b ++ took ≡ gave ++ contents b')

-- A request is for less memory than a vector may have.
abbrev pub IsSmall : Call → Type 0
IsSmall (puts ys) = length ys < vector_limit
IsSmall (gets n) = Unit {0}
IsSmall (reserves n) = n < vector_limit
IsSmall drops_all = Unit {0}

Granted-Kept :
    {b b' : IoBufImp} {n : ℕ} → Granted b b' n → IsValid b' × (contents b ++ [] ≡ contents b')
Granted-Kept {b} g = (g.valid, append-nil (contents b) ∙ sym g.same)

reserves-Kept : (b : IoBufImp) (n : ℕ) → IsValid b → n < vector_limit → Kept b (step b (reserves n))
unfolding step
reserves-Kept b n v h = elim (space-Cases b n) [
  | inl (safe, f) ↦ let (b', e, g) = ensure_writable_grants b n v safe f in rw e (Granted-Kept g)
  | inr (inl (k, l)) ↦
      rw (ensure_writable_refuses b n v k l (omega arith)) (v, append-nil (contents b))
  | inr (inr (c, d, k, f)) ↦ rw (ensure_writable_overlaps b n v c d k f) tt
]

puts-Kept :
    (b : IoBufImp) (ys : List ℕ) → IsValid b → length ys < vector_limit → Kept b (step b (puts ys))
unfolding step
puts-Kept b [] v h = rw (write_nothing b []) (v, append-nil (contents b))
puts-Kept b (y ∷ ys) v h = elim (space-Cases b n) [
  | inl (safe, f) ↦
      let (b', e, a) = write_appends b (y ∷ ys) n v safe f (omega arith) (omega arith) in
      rw e (
        a.valid,
        ap (λ xs. contents b ++ xs) (sym (take_all n (y ∷ ys) (omega arith))) ∙ sym a.held,
      )
  | inr (inl (k, l)) ↦
      rw (write_refuses b (y ∷ ys) n v k l (omega arith)) (v, append-nil (contents b))
  | inr (inr (c, d, k, f)) ↦ rw (write_overlaps b (y ∷ ys) n v c d k f) tt
]
  where
    n : ℕ
    n = suc (length ys)

gets-Kept : (b : IoBufImp) (n : ℕ) → IsValid b → Kept b (step b (gets n))
unfolding step
gets-Kept b n v = elim (dec_lt 0 n) [
  | yes p ↦ elim (dec_le n (length (contents b))) [
    | yes q ↦
        let (b', e, w, k) = read_takes b n v p q in
        rw e (
          w,
          append-nil (contents b)
              ∙ sym (take-append-drop n (contents b))
              ∙ ap (◌++◌ (take n (contents b))) (sym k),
        )
    | no q ↦ rw (read_refuses b n v (omega arith)) (v, append-nil (contents b))
  ]
  | no z ↦
      let e : n ≡ 0 = omega arith in
      rw (ap (read b true) e, read_nothing b) (v, append-nil (contents b))
]

-- Every call keeps the invariant and accounts for every byte.
step-Kept : (b : IoBufImp) (c : Call) → IsValid b → IsSmall c → Kept b (step b c)
unfolding step
step-Kept b (puts ys) v h = puts-Kept b ys v h
step-Kept b (gets n) v h = gets-Kept b n v
step-Kept b (reserves n) v h = reserves-Kept b n v h
step-Kept b drops_all v h =
    (has_readall-IsValid v, ap (◌++◌ (contents b)) (sym (contents-has_readall b)))

-- A history up to its end, or up to the first call that runs into undefined behaviour.
pub record Run : Type 0 where
  pub taken : List ℕ
  pub given : List ℕ
  pub final : IoBufImp

abbrev then_run : List ℕ → List ℕ → Run → Run
then_run took gave r = record r { taken = took ++ r.taken; given = gave ++ r.given }

pub run : IoBufImp → List Call → Run
run b [] = record { taken = []; given = []; final = b }
run b (c ∷ cs) = elim (step b c) [
  | none ↦ record { taken = []; given = []; final = b }
  | some (took, gave, b') ↦ then_run took gave (run b' cs)
]

abbrev pub AllSmall : List Call → Type 0
AllSmall [] = Unit {0}
AllSmall (c ∷ cs) = IsSmall c × AllSmall cs

then_run_conserves :
    (b b' : IoBufImp) (took gave : List ℕ) (r : Run)
    → contents b ++ took ≡ gave ++ contents b'
    → contents b' ++ r.taken ≡ r.given ++ contents r.final
    → contents b ++ (took ++ r.taken) ≡ (gave ++ r.given) ++ contents r.final
then_run_conserves b b' took gave r p q =
    sym (append_assoc (contents b) took r.taken)
    ∙ ap (λ xs. xs ++ r.taken) p
    ∙ append_assoc gave (contents b') r.taken
    ∙ ap (◌++◌ gave) q
    ∙ sym (append_assoc gave r.given (contents r.final))

-- From a valid buffer, under any sequence of calls that each ask for fewer bytes than a vector may
-- have, and up to the first call that is undefined, the buffer stays valid, and the bytes held at
-- first and then accepted are, in order, those handed out and then held.
pub run_conserves :
    (b : IoBufImp) (cs : List Call)
    → IsValid b
    → AllSmall cs
    → IsValid (run b cs).final
      × (contents b ++ (run b cs).taken ≡ (run b cs).given ++ contents (run b cs).final)
unfolding run
run_conserves b [] v h = (v, append-nil (contents b))
run_conserves b (c ∷ cs) v h =
    go (step b c) (step-Kept b c v h.0) (λ b' w. run_conserves b' cs w h.1)
  where
    go :
        (o : Outcome)
        → Kept b o
        → ((b' : IoBufImp)
            → IsValid b'
            → IsValid (run b' cs).final
              × (contents b' ++ (run b' cs).taken
                  ≡ (run b' cs).given ++ contents (run b' cs).final))
        → let r : Run = elim o [
          | none ↦ record { taken = []; given = []; final = b }
          | some (took, gave, b') ↦ then_run took gave (run b' cs)
        ] in
          IsValid r.final × (contents b ++ r.taken ≡ r.given ++ contents r.final)
    go none k rest = (v, append-nil (contents b))
    go (some (took, gave, b')) k rest =
        ((rest b' k.0).0, then_run_conserves b b' took gave (run b' cs) k.1 (rest b' k.0).1)
