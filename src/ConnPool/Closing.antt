-- ===== src/ConnPool/Closing.antt =====
-- internal/connpool/pool.go: what happens to a connection that comes back, and to a closed pool.
use eidola.Common.{ℕ, ◌+◌, ◌≤◌, ◌≡◌, ◌⊎◌, true, false, List, [], ◌∷◌, ◌++◌, arith, length}
use eidola.Common.Int.{positive}
use eidola.ConnPool.Defs.{
  Pool, Op, reuses, get, put, close_conn, run, step, is_expired, pool_closed, close, gets,
  gets_again, puts,
}

-- A closed pool stays closed under every call.
step_closed : (p : Pool) (op : Op) → p.closed ≡ true → (step p op).closed ≡ true
unfolding step
step_closed p (gets now) h = ground arith
step_closed p (gets_again now) h = ground arith
step_closed p (puts c now) h = ground arith
step_closed p op h = ground arith

run_closed : (p : Pool) (ops : List Op) → p.closed ≡ true → (run p ops).closed ≡ true
unfolding run
run_closed p [] h = h
run_closed p (op ∷ ops) h = run_closed (step p op) ops (step_closed p op h)

close_closed : (p : Pool) → (close p).closed ≡ true
unfolding close
close_closed p = ground arith

-- Once Close has run, Get reports a closed pool after any further calls, and changes nothing.
close-get :
    (p : Pool) (ops : List Op) (now : ℕ)
    → get (run (close p) ops) now ≡ (run (close p) ops, pool_closed)
unfolding get
close-get p ops now = rw (run_closed (close p) ops (close_closed p))

-- Get hands out an idle connection only if it is the newest one and has not expired, and that
-- connection is no longer idle.
get-reuses :
    (p : Pool) (now c : ℕ)
    → (get p now).1 ≡ reuses c
    → (p.idle ≡ c ∷ (get p now).0.idle) × (is_expired p now c ≡ false) × (p.closed ≡ false)
unfolding get
get-reuses p now c h = ground arith

-- A connection that is put back into an open pool for which nobody waits is kept as the newest idle
-- one or its ClientConn is closed, and never both.
put-kept :
    (p : Pool) (c now : ℕ)
    → p.closed ≡ false
    → positive p.wait_count ≡ false
    → (((put p c now).idle ≡ c ∷ p.idle) × ((put p c now).released ≡ p.released))
      ⊎ (((put p c now).idle ≡ p.idle) × ((put p c now).released ≡ p.released ++ c ∷ []))
unfolding put
put-kept p c now open' free = ground arith

-- A connection that is put back while somebody waits is lost: it is neither kept idle nor closed.
put-lost :
    (p : Pool) (c now : ℕ)
    → p.closed ≡ false
    → positive p.wait_count ≡ true
    → ((put p c now).idle ≡ p.idle)
      × ((put p c now).released ≡ p.released)
      × ((put p c now).signals ≡ p.signals + 1)
unfolding put
put-lost p c now open' waited = ground arith

-- Closing a PoolConn twice puts it into the idle list twice, since Put marks it as open again: in an
-- open pool for which nobody waits and with room for two more.
close_conn-twice :
    (p : Pool) (c now later : ℕ)
    → p.closed ≡ false
    → (p.conns c).closed ≡ false
    → positive p.wait_count ≡ false
    → length p.idle + 2 ≤ p.opts.max_idle
    → (close_conn (close_conn p c now) c later).idle ≡ c ∷ c ∷ p.idle
unfolding close_conn
close_conn-twice p c now later open' fresh free room = ground arith
