-- ===== src/Logger/Ordering.antt =====
-- The order of the calls that zlog gets, however often the log is set up and taken down.
use sdpf.Prelude.{
  ℕ, ◌+◌, ◌≡◌, refl, sym, subst, arith, if◌then◌else◌, ap, ◌∙◌, Bool, true, false, Option, none,
  some, List, [], ◌∷◌, ◌++◌, ℤ, pos, is_zero, Bool-cases, inl, inr,
}
use sdpf.Logger.{
  ZlogCall, dzlog_init, get_category, fini, Log, Zlog, create, call, keep_category, set_name,
  start_zlog, log_init, log_uninit,
}

-- zlog's rules: `dzlog_init` starts it and must not be called while it runs, a category is only
-- asked for while it runs, and `zlog_fini` ends it, or finds nothing to end. The answer is whether it
-- runs behind the calls, and how often `zlog_fini` has found nothing to end.
unfoldable pub follows : Bool → ℕ → List ZlogCall → Option (Bool × ℕ)
follows on k [] = some (on, k)
follows true k (dzlog_init n rc ∷ cs) = none
follows false k (dzlog_init n rc ∷ cs) = follows (is_zero rc) k cs
follows true k (get_category n ∷ cs) = follows true k cs
follows false k (get_category n ∷ cs) = none
follows true k (fini ∷ cs) = follows false k cs
follows false k (fini ∷ cs) = follows false (k + 1) cs

follows-append :
    (xs : List ZlogCall) (c : ZlogCall) (on b : Bool) (i k : ℕ)
    → follows on i xs ≡ some (b, k)
    → follows on i (xs ++ (c ∷ [])) ≡ follows b k (c ∷ [])
unfolding follows
follows-append [] c on b i k e =
    ap (λ o. elim o as (λ _. Option (Bool × ℕ)) [ none ↦ none | some x ↦ follows x.0 x.1 (c ∷ []) ])
      e
follows-append (dzlog_init n rc ∷ xs) c true b i k e = cc
follows-append (dzlog_init n rc ∷ xs) c false b i k e = follows-append xs c (is_zero rc) b i k e
follows-append (get_category n ∷ xs) c true b i k e = follows-append xs c true b i k e
follows-append (get_category n ∷ xs) c false b i k e = cc
follows-append (fini ∷ xs) c true b i k e = follows-append xs c false b i k e
follows-append (fini ∷ xs) c false b i k e = follows-append xs c false b (i + 1) k e

abbrev pub has_category : Option ℕ → Bool
has_category none = false
has_category (some c) = true

pub data Op : Type 0 where
  init : Option (List ℕ) → Op
  uninit : Op

unfoldable pub run : Zlog → List Op → Log → Log
run zlog [] l = l
run zlog (init cat ∷ ops) l = run zlog ops (log_init zlog cat l).1
run zlog (uninit ∷ ops) l = run zlog ops (log_uninit l).1

-- How often the log is taken down while it has no category.
unfoldable pub strays : Zlog → List Op → Log → ℕ
strays zlog [] l = 0
strays zlog (init cat ∷ ops) l = strays zlog ops (log_init zlog cat l).1
strays zlog (uninit ∷ ops) l =
    (if has_category l.category then 0 else 1) + strays zlog ops (log_uninit l).1

-- zlog runs where there is a category, and nowhere else; `zlog_fini` has found nothing to end as often
-- as the number says.
abbrev pub IsKept : Log → ℕ → Type 0
IsKept l k = follows false 0 l.calls ≡ some (has_category l.category, k)

set_name-calls : (cat : Option (List ℕ)) (l : Log) → (set_name cat l).calls ≡ l.calls
set_name-calls none l = refl
set_name-calls (some n) l = refl

set_name-category : (cat : Option (List ℕ)) (l : Log) → (set_name cat l).category ≡ l.category
set_name-category none l = refl
set_name-category (some n) l = refl

-- Without a category, where zlog does not run.
keep_category-IsKept :
    (l : Log) (o : Option ℕ) (k : ℕ)
    → l.category ≡ none
    → follows false 0 l.calls ≡ some (true, k)
    → IsKept (keep_category l o).1 k
unfolding follows
keep_category-IsKept l none k n h =
    follows-append l.calls fini false true 0 k h ∙ ap (λ o. some (has_category o, k)) (sym n)
keep_category-IsKept l (some c) k n h = h

start_zlog-IsKept :
    (zlog : Zlog) (l : Log) (k : ℕ)
    → l.category ≡ none
    → follows false 0 l.calls ≡ some (false, k)
    → IsKept (start_zlog zlog l).1 k
unfolding start_zlog follows
start_zlog-IsKept zlog l k n h =
    let begun = call (dzlog_init l.name (zlog.init l.name l)) l in
    let asked = call (get_category l.name) begun in
    let begins : follows false 0 begun.calls ≡ some (is_zero (zlog.init l.name l), k) =
      follows-append l.calls (dzlog_init l.name (zlog.init l.name l)) false false 0 k h in
    elim (Bool-cases (is_zero (zlog.init l.name l))) [
      | inl q ↦ rw q (
          keep_category-IsKept asked (zlog.category l.name asked) k n (
            follows-append begun.calls (get_category l.name) false true 0 k
              (begins ∙ ap (λ b. some (b, k)) q)))
      | inr q ↦ rw q (begins ∙ ap (λ b. some (b, k)) q ∙ ap (λ o. some (has_category o, k)) (sym n))
    ]

log_init-IsKept :
    (zlog : Zlog) (cat : Option (List ℕ)) (l : Log) (k : ℕ)
    → IsKept l k
    → IsKept (log_init zlog cat l).1 k
unfolding log_init
log_init-IsKept zlog cat l k h = at l.category refl
  where
    at :
        (o : Option ℕ)
        → l.category ≡ o
        → IsKept
            (elim o as (λ _. ℤ × Log) [
              | some c ↦ (pos 0, l)
              | none ↦ start_zlog zlog (set_name cat l)
            ]).1
            k
    at (some c) e = h
    at none e =
        start_zlog-IsKept zlog (set_name cat l) k (set_name-category cat l ∙ e)
          (ap (follows false 0) (set_name-calls cat l) ∙ h ∙ ap (λ o. some (has_category o, k)) e)

log_uninit-IsKept :
    (l : Log) (k : ℕ)
    → IsKept l k
    → IsKept (log_uninit l).1 (k + (if has_category l.category then 0 else 1))
unfolding log_uninit follows
log_uninit-IsKept l k h = ended (has_category l.category) h
  where
    ended :
        (b : Bool)
        → follows false 0 l.calls ≡ some (b, k)
        → follows false 0 (l.calls ++ (fini ∷ [])) ≡ some (false, k + (if b then 0 else 1))
    ended true e =
        follows-append l.calls fini false true 0 k e ∙ ap (λ n. some (false, n)) (omega arith)
    ended false e = follows-append l.calls fini false false 0 k e

run_from-IsKept :
    (zlog : Zlog) (ops : List Op) (l : Log) (k : ℕ)
    → IsKept l k
    → IsKept (run zlog ops l) (k + strays zlog ops l)
unfolding run strays
run_from-IsKept zlog [] l k h = h ∙ ap (λ n. some (has_category l.category, n)) (omega arith)
run_from-IsKept zlog (init cat ∷ ops) l k h =
    run_from-IsKept zlog ops (log_init zlog cat l).1 k (log_init-IsKept zlog cat l k h)
run_from-IsKept zlog (uninit ∷ ops) l k h =
    subst (IsKept (run zlog ops (log_uninit l).1)) (omega arith) (
      run_from-IsKept zlog ops (log_uninit l).1 (k + (if has_category l.category then 0 else 1))
        (log_uninit-IsKept l k h))

-- However often the log is set up and taken down, with whatever names and answers of zlog, zlog is
-- never started while it runs nor asked for a category while it does not run, and there is a
-- category exactly where zlog runs. `zlog_fini` is called while zlog does not run exactly as often as
-- `log_uninit` is called while there is no category.
pub run-IsKept :
    (zlog : Zlog) (ops : List Op) → IsKept (run zlog ops create) (strays zlog ops create)
unfolding create follows
run-IsKept zlog ops =
    subst (IsKept (run zlog ops create)) (omega arith) (run_from-IsKept zlog ops create 0 refl)
