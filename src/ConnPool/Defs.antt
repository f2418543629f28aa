-- ===== src/ConnPool/Defs.antt =====
-- internal/connpool/pool.go: state and operations. A PoolConn is a pointer, known by a number; its
-- fields stand in the map `conns`. The slice `idle` is kept with its end first. `released` logs the
-- connections whose ClientConn is closed, `signals` counts the calls of cond.Signal.
use eidola.Common.{
  ℕ, ◌+◌, Bool, true, false, not, ◌&&◌, ◌||◌, Option, none, some, List, [], ◌∷◌, ◌++◌, ltb, ◌==◌,
  if◌then◌else◌, length, keep,
}
use eidola.Common.Int.{ℤ, pos, increment, decrement, below, positive}
use mathlib.Core.List.{reverse}

pub record Options : Type 0 where
  pub max_idle : ℕ
  pub max_active : ℕ
  pub idle_timeout : ℕ
  pub wait_timeout : ℕ
  pub wait : Bool

pub record PoolConn : Type 0 where
  pub last_used : ℕ
  pub closed : Bool

pub record Pool : Type 0 where
  pub opts : Options
  pub idle : List ℕ
  pub active : ℤ
  pub wait_count : ℤ
  pub closed : Bool
  pub conns : ℕ → PoolConn
  pub released : List ℕ
  pub signals : ℕ

pub record Status : Type 0 where
  pub active_count : ℤ
  pub idle_count : ℕ
  pub wait_count : ℤ
  pub max_active : ℕ

-- What a critical section of Get decides.
pub data Reply : Type 0 where
  reuses : ℕ → Reply
  dials waits exhausted pool_closed failed : Reply

unfoldable pub new_pool : Options → (ℕ → PoolConn) → Pool
new_pool opts conns = record {
  opts = opts;
  idle = [];
  active = pos 0;
  wait_count = pos 0;
  closed = false;
  conns = conns;
  released = [];
  signals = 0;
}

abbrev pub update : (ℕ → PoolConn) → ℕ → PoolConn → ℕ → PoolConn
update conns c pc d = if c == d then pc else conns d

-- conn.ClientConn.Close()
abbrev pub release : Pool → ℕ → Pool
release p c = record p { released = p.released ++ c ∷ [] }

-- Whether the connection has been idle for longer than the limit.
unfoldable pub is_expired : Pool → ℕ → ℕ → Bool
is_expired p now c =
    ltb 0 p.opts.idle_timeout && ltb ((p.conns c).last_used + p.opts.idle_timeout) now

-- getIdleConn on the list of idle connections: the newest one, unless it is nil or expired.
unfoldable pub pop_idle : List ℕ → Pool → ℕ → Pool × Option ℕ
unfolding is_expired
pop_idle [] p now = (p, none)
pop_idle (c ∷ rest) p now =
    let q = record p { idle = rest } in
    if is_expired p now c then (release q c, none) else (q, some c)

unfoldable pub get_idle_conn : Pool → ℕ → Pool × Option ℕ
unfolding pop_idle
get_idle_conn p now = pop_idle p.idle p now

abbrev pub activate : Pool → Pool
activate p = record p { active = increment p.active }

-- `p.opts.MaxActive == 0 || p.active < p.opts.MaxActive`
unfoldable pub has_room : Pool → Bool
has_room p = p.opts.max_active == 0 || below p.active p.opts.max_active

-- The end of Get's first section, with what getIdleConn returned.
unfoldable pub first_reply : Pool × Option ℕ → Pool × Reply
unfolding has_room
first_reply (p, some c) = (activate p, reuses c)
first_reply (p, none) =
    if has_room p
    then (activate p, dials)
    else if p.opts.wait
    then (record p { wait_count = increment p.wait_count }, waits)
    else (p, exhausted)

-- Get, from its start to the dialling, the waiting or its return.
unfoldable pub get : Pool → ℕ → Pool × Reply
unfolding get_idle_conn first_reply
get p now = if p.closed then (p, pool_closed) else first_reply (get_idle_conn p now)

-- The factory has returned an error.
unfoldable pub dial_failed : Pool → Pool
dial_failed p = record p { active = decrement p.active }

-- The factory has returned a connection, which the PoolConn numbered c holds.
unfoldable pub dialled : Pool → ℕ → ℕ → Pool
dialled p c now = record p { conns = update p.conns c (record { last_used = now; closed = false }) }

-- The wait has timed out, or its context is cancelled.
unfoldable pub wait_over : Pool → Pool
wait_over p = record p { wait_count = decrement p.wait_count }

unfoldable pub second_reply : Pool × Option ℕ → Pool × Reply
unfolding has_room
second_reply (p, some c) = (activate p, reuses c)
second_reply (p, none) = if has_room p then (activate p, dials) else (p, failed)

-- Get after the wait has ended by a signal.
unfoldable pub get_again : Pool → ℕ → Pool × Reply
unfolding wait_over get_idle_conn second_reply
get_again p now =
    let q = wait_over p in if q.closed then (q, pool_closed) else second_reply (get_idle_conn q now)

unfoldable pub put : Pool → ℕ → ℕ → Pool
put p c now =
    let q = record p {
      active = decrement p.active;
      conns = update p.conns c (record { last_used = now; closed = false });
    } in
    if p.closed
    then release p c
    else if positive p.wait_count
    then record q { signals = p.signals + 1 }
    else if ltb 0 p.opts.max_idle && ltb (length p.idle) p.opts.max_idle
    then record q { idle = c ∷ p.idle }
    else release q c

-- PoolConn.Close.
unfoldable pub close_conn : Pool → ℕ → ℕ → Pool
unfolding put
close_conn p c now =
    let q = record p { conns = update p.conns c (record (p.conns c) { closed = true }) } in
    if (p.conns c).closed then p else put q c now

-- Pool.Close: the idle connections are closed from the oldest on.
unfoldable pub close : Pool → Pool
close p =
    if p.closed
    then p
    else record p { closed = true; released = p.released ++ reverse p.idle; idle = [] }

unfoldable pub status : Pool → Status
status p = record {
  active_count = p.active;
  idle_count = length p.idle;
  wait_count = p.wait_count;
  max_active = p.opts.max_active;
}

-- `conn.lastUsed.After(now - IdleTimeout)`
unfoldable pub is_fresh : Pool → ℕ → ℕ → Bool
is_fresh p now c = ltb now ((p.conns c).last_used + p.opts.idle_timeout)

-- One tick of the cleaner, which runs only if IdleTimeout is positive.
unfoldable pub clean : Pool → ℕ → Pool
unfolding is_fresh
clean p now =
    let stale = keep (λ c. not (is_fresh p now c)) p.idle in
    let valid = keep (is_fresh p now) p.idle in
    if p.closed || p.opts.idle_timeout == 0
    then p
    else record p { idle = valid; released = p.released ++ reverse stale }

-- One critical section, at its time where it reads the clock.
pub data Op : Type 0 where
  gets gets_again cleans : ℕ → Op
  dials_in_vain gives_up closes : Op
  dials_well puts closes_conn : ℕ → ℕ → Op

unfoldable pub step : Pool → Op → Pool
unfolding get get_again dial_failed dialled wait_over put close_conn close clean
step p (gets now) = (get p now).0
step p (gets_again now) = (get_again p now).0
step p (cleans now) = clean p now
step p dials_in_vain = dial_failed p
step p gives_up = wait_over p
step p closes = close p
step p (dials_well c now) = dialled p c now
step p (puts c now) = put p c now
step p (closes_conn c now) = close_conn p c now

unfoldable pub run : Pool → List Op → Pool
run p [] = p
run p (o ∷ os) = run (step p o) os
