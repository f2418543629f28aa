-- ===== src/ConnPool/Bounds.antt =====
-- internal/connpool/pool.go: the limits on connections hold after any calls.
use eidola.Common.{ℕ, ◌+◌, ◌≤◌, ◌<◌, ◌≡◌, true, List, [], ◌∷◌, arith, length, length-keep-le}
use eidola.Common.Int.{pos_part, neg_part, increment_parts, decrement_parts, below-lt}
use eidola.ConnPool.Defs.{
  Options, Pool, Op, dials_in_vain, gives_up, closes, new_pool, step, run, get, get_again, put,
  clean, gets, is_fresh, PoolConn, gets_again, cleans, dials_well, puts, closes_conn,
}

-- The limits of the options, the active count being a signed number, and an empty closed pool.
pub record Limits (o : Options) (p : Pool) : Type 0 where
  pub same_opts : p.opts ≡ o
  pub active_limit :
      0 < o.max_active → pos_part p.active + length p.idle ≤ o.max_active + neg_part p.active
  pub idle_limit : length p.idle ≤ o.max_idle
  pub closed_empty : p.closed ≡ true → p.idle ≡ []

module _ (o : Options) where
  pub new_pool-Limits : (conns : ℕ → PoolConn) → Limits o (new_pool o conns)
  unfolding new_pool
  new_pool-Limits conns = ground arith

  get-Limits : (p : Pool) (now : ℕ) → Limits o p → Limits o (get p now).0
  unfolding get
  get-Limits p now v = ground (arith, increment_parts p.active, below-lt p.active p.opts.max_active)

  get_again-Limits : (p : Pool) (now : ℕ) → Limits o p → Limits o (get_again p now).0
  unfolding get_again
  get_again-Limits p now v =
      ground (arith, increment_parts p.active, below-lt p.active p.opts.max_active)

  put-Limits : (p : Pool) (c now : ℕ) → Limits o p → Limits o (put p c now)
  unfolding put
  put-Limits p c now v = ground (arith, decrement_parts p.active)

  clean-Limits : (p : Pool) (now : ℕ) → Limits o p → Limits o (clean p now)
  unfolding clean
  clean-Limits p now v = ground (arith, length-keep-le (is_fresh p now) p.idle)

  step-Limits : (p : Pool) (op : Op) → Limits o p → Limits o (step p op)
  unfolding step
  step-Limits p (gets now) v = get-Limits p now v
  step-Limits p (gets_again now) v = get_again-Limits p now v
  step-Limits p (cleans now) v = clean-Limits p now v
  step-Limits p dials_in_vain v = ground (arith, decrement_parts p.active)
  step-Limits p gives_up v = ground arith
  step-Limits p closes v = ground arith
  step-Limits p (dials_well c now) v = ground arith
  step-Limits p (puts c now) v = put-Limits p c now v
  step-Limits p (closes_conn c now) v = ground (arith, decrement_parts p.active)

  -- After any sequence of calls on a pool the connections counted as active and those kept idle are
  -- together at most MaxActive, if that is positive, the idle ones at most MaxIdle, and a closed
  -- pool keeps none idle.
  pub run-Limits : (p : Pool) (ops : List Op) → Limits o p → Limits o (run p ops)
  unfolding run
  run-Limits p [] v = v
  run-Limits p (op ∷ ops) v = run-Limits (step p op) ops (step-Limits p op v)
