-- ===== src/Logger.antt =====
-- Setting up the log: src/logger.c.
--
-- zlog is what `Zlog` answers; what it is told is the list `calls`. The category is known by its
-- address. What `printf` and `setvbuf` are told is left out.
pub mod Ordering
mod Tests
use sdpf.Prelude.{
  ℕ, Bool, true, false, not, Option, none, some, List, [], ◌∷◌, ◌++◌, ℤ, pos, neg, is_zero,
  if◌then◌else◌,
}

-- `dzlog_init` with its answer, `zlog_get_category`, `zlog_fini`.
pub data ZlogCall : Type 0 where
  dzlog_init : List ℕ → ℤ → ZlogCall
  get_category : List ℕ → ZlogCall
  fini : ZlogCall

-- `_dev_category`, null or not, and `_LOG_CATEGORY_DEFAULT`.
pub record Log : Type 0 where
  pub category : Option ℕ
  pub name : List ℕ
  pub calls : List ZlogCall

-- What zlog answers.
pub record Zlog : Type 0 where
  pub init : List ℕ → Log → ℤ
  pub category : List ℕ → Log → Option ℕ

-- "dev_cat"
abbrev pub default_name : List ℕ
default_name = b'd' ∷ b'e' ∷ b'v' ∷ b'_' ∷ b'c' ∷ b'a' ∷ b't' ∷ []

unfoldable pub create : Log
create = record { category = none; name = default_name; calls = [] }

abbrev pub call : ZlogCall → Log → Log
call c l = record l { calls = l.calls ++ (c ∷ []) }

-- What `zlog_get_category` gives: a category, or -2 and the end of zlog.
abbrev pub keep_category : Log → Option ℕ → ℤ × Log
keep_category l none = (neg 2, call fini l)
keep_category l (some c) = (pos 0, record l { category = some c })

-- A null `cat`, `none`, leaves the name that there is.
abbrev pub set_name : Option (List ℕ) → Log → Log
set_name none l = l
set_name (some n) l = record l { name = n }

-- `log_init`, where there is no category yet.
unfoldable pub start_zlog : Zlog → Log → ℤ × Log
start_zlog zlog l =
    let begun = call (dzlog_init l.name (zlog.init l.name l)) l in
    let asked = call (get_category l.name) begun in
    if not (is_zero (zlog.init l.name l))
    then (neg 1, begun)
    else keep_category asked (zlog.category l.name asked)

unfoldable pub log_init : Zlog → Option (List ℕ) → Log → ℤ × Log
log_init zlog cat l = elim l.category [
  | some c ↦ (pos 0, l)
  | none ↦ start_zlog zlog (set_name cat l)
]

unfoldable pub log_uninit : Log → ℤ × Log
log_uninit l = (pos 0, record (call fini l) { category = none })
