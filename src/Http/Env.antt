-- ===== src/Http/Env.antt =====
-- http/env.go: the globals that init reads from the environment. os.Getenv, os.Getwd and
-- strconv.ParseInt are arguments. A Duration is counted in nanoseconds.
use magic_engine.Common.{ℕ, zero, suc, ◌*◌, Bool, not, [], ◌∷◌, Bytes, codes, bytes_eq}
use magic_engine.NetHttp.{Try, ok, err}

-- An int64 that ParseInt gives: n, or -(n + 1)
pub data Parsed : Type 0 where
  non_negative : ℕ → Parsed
  negative : ℕ → Parsed

-- The globals
pub record Environment : Type 0 where
  pub env : Bytes
  pub root : Bytes
  pub enable_trace : Bool
  pub elapse_threshold : ℕ

abbrev pub second : ℕ
second = 1000000000

-- setENV, over the value that `Env` has
unfoldable pub set_env : Bytes → Bytes → Bytes
set_env [] current = current
set_env (c ∷ env) current = c ∷ env

-- `if elapseVal <= 0 { elapseVal = 1 }`, in seconds
abbrev pub threshold : Try Parsed → ℕ
threshold (err e) = 10 * second
threshold (ok (negative n)) = second
threshold (ok (non_negative zero)) = second
threshold (ok (non_negative (suc n))) = suc n * second

abbrev pub elapse_threshold_of : (Bytes → Try Parsed) → Bytes → ℕ
elapse_threshold_of parse_int [] = 10 * second
elapse_threshold_of parse_int (c ∷ s) = threshold (parse_int (c ∷ s))

-- init; an error of Getwd is a panic.
unfoldable pub init : (Bytes → Bytes) → Try Bytes → (Bytes → Try Parsed) → Try Environment
unfolding set_env
init getenv (err e) parse_int = err e
init getenv (ok root) parse_int =
    let env = set_env (getenv (codes "MAGICENGINE_ENV")) (codes "development") in
    ok (record {
      env = env;
      root = root;
      enable_trace = not (bytes_eq env (codes "production"));
      elapse_threshold = elapse_threshold_of parse_int (getenv (codes "MAGICENGINE_ELAPSE"));
    })
