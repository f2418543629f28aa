-- ===== src/ConnPool/Examples.antt =====
-- internal/connpool/pool.go: tests, and the theorems at concrete pools.
use eidola.Common.{ℕ, ◌≡◌, refl, true, false, List, [], ◌∷◌}
use eidola.Common.Int.{pos, positive, increment, decrement, below}
use eidola.ConnPool.Defs.{
  Options, PoolConn, Pool, Op, new_pool, run, step, gets, dials_well, dials_in_vain, closes_conn,
  puts,
}
use eidola.ConnPool.Bounds.{Limits, new_pool-Limits, run-Limits}

abbrev small : Options
small = record { max_idle = 2; max_active = 2; idle_timeout = 10; wait_timeout = 5; wait = true }

abbrev no_conns : ℕ → PoolConn
no_conns c = record { last_used = 0; closed = false }

-- Connection 3 is idle since time 20, and connection 4 is in use.
abbrev one_idle : Pool
one_idle = record {
  opts = small;
  idle = 3 ∷ [];
  active = pos 1;
  wait_count = pos 0;
  closed = false;
  conns = λ c. record { last_used = 20; closed = false };
  released = [];
  signals = 0;
}

abbrev awaited : Pool
awaited = record one_idle { wait_count = pos 1; idle = [] }

abbrev drained : Pool
drained = record one_idle { idle = [] }

abbrev calls : List Op
calls =
    gets 1
    ∷ dials_well 0 2
    ∷ gets 3
    ∷ dials_in_vain
    ∷ closes_conn 0 4
    ∷ gets 5
    ∷ puts 0 6
    ∷ gets 40
    ∷ []

-- The connection that is idle for too long is closed, and Get dials.
calls_end : (run (new_pool small no_conns) calls).released ≡ 0 ∷ []
unfolding run step new_pool increment decrement below positive
calls_end = refl

run-Limits_example : Limits small (run (new_pool small no_conns) calls)
run-Limits_example =
    run-Limits small (new_pool small no_conns) calls (new_pool-Limits small no_conns)
