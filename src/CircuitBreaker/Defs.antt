-- ===== src/CircuitBreaker/Defs.antt =====
-- internal/circuitbreaker/circuitbreaker.go: types, state and every method.
use eidola.Common.{
  ℕ, ◌+◌, ◌-◌, String, Bool, true, false, ◌&&◌, ◌||◌, Option, none, some, List, [], ◌∷◌, ◌++◌, ltb,
  leb, if◌then◌else◌, keep, length,
}
use eidola.Common.Word.{u32, add_u32}

-- `other` stands for the values of the integer type that no constant names.
pub data State : Type 0 where
  state_closed state_half_open state_open : State
  other : ℕ → State

pub data Error : Type 0 where
  err_open_state err_too_many_concurrent : Error

-- A listener is a function value of Go, known by a number; nil is `none`.
abbrev pub StateChangeListener : Type 0
StateChangeListener = Option ℕ

-- Durations are numbers of nanoseconds. `F` is the type float64.
pub record Options (F : Type 0) : Type 0 where
  pub threshold : ℕ
  pub timeout : ℕ
  pub half_open_max_requests : ℕ
  pub progressive_factor : F
  pub max_concurrent : ℕ
  pub window_size : ℕ
  pub success_threshold : ℕ
  pub force_break : Bool
  pub on_state_change : StateChangeListener

-- One goroutine that the breaker starts: the listener and its arguments.
pub record Notification : Type 0 where
  pub listener : ℕ
  pub name : String
  pub from : State
  pub to : State

pub record CircuitBreaker (F : Type 0) : Type 0 where
  pub name : String
  pub opts : Options F
  pub state : State
  pub failures : ℕ
  pub successes : ℕ
  pub last_state_change : ℕ
  pub half_open_allowed : ℕ
  pub half_open_original : ℕ
  pub concurrent : ℕ
  pub failures_window : List ℕ
  pub listeners : List StateChangeListener
  pub last_failure : ℕ
  pub consecutive_failures : ℕ
  pub notified : List Notification

-- `oldState != newState` for the three states that the methods use.
unfoldable pub same_state : State → State → Bool
same_state state_closed state_closed = true
same_state state_half_open state_half_open = true
same_state state_open state_open = true
same_state (other m) (other n) = leb m n && leb n m
same_state _ _ = false

-- The loop over the listeners, nil ones skipped.
unfoldable pub notify : String → State → State → List StateChangeListener → List Notification
notify name from to [] = []
notify name from to (none ∷ ls) = notify name from to ls
notify name from to (some l ∷ ls) =
    record { listener = l; name = name; from = from; to = to } ∷ notify name from to ls

unfoldable pub append_listener :
    List StateChangeListener → StateChangeListener → List StateChangeListener
append_listener ls none = ls
append_listener ls (some l) = ls ++ some l ∷ []

pub record Stats : Type 0 where
  pub state : State
  pub failures : ℕ
  pub consecutive_failures : ℕ
  pub successes : ℕ
  pub current_requests : ℕ
  pub since : ℕ
  pub last_failure : ℕ
  pub half_open_allowed : ℕ

module _ {F : Type 0} where
  unfoldable pub new : String → Options F → ℕ → CircuitBreaker F
  new name opts now = record {
    name = name;
    opts = opts;
    state = state_closed;
    failures = 0;
    successes = 0;
    last_state_change = now;
    half_open_allowed = opts.half_open_max_requests;
    half_open_original = opts.half_open_max_requests;
    concurrent = 0;
    failures_window = [];
    listeners = opts.on_state_change ∷ [];
    last_failure = 0;
    consecutive_failures = 0;
    notified = [];
  }

  -- AddListener: a nil listener is ignored.
  unfoldable pub add_listener : CircuitBreaker F → StateChangeListener → CircuitBreaker F
  add_listener cb none = cb
  add_listener cb (some l) = record cb { listeners = cb.listeners ++ some l ∷ [] }

  -- The counters that a change into each state resets.
  unfoldable pub reset_counters : CircuitBreaker F → State → CircuitBreaker F
  reset_counters cb state_closed = record cb {
    failures = 0;
    failures_window = [];
    consecutive_failures = 0;
  }
  reset_counters cb state_half_open = record cb {
    successes = 0;
    half_open_allowed = cb.half_open_original;
  }
  reset_counters cb _ = cb

  unfoldable pub change_state : CircuitBreaker F → State → ℕ → CircuitBreaker F
  unfolding reset_counters same_state
  change_state cb new_state now =
      let changed = record cb { state = new_state; last_state_change = now } in
      let c = reset_counters changed new_state in
      if same_state cb.state new_state
      then c
      else record c { notified = cb.notified ++ notify cb.name cb.state new_state cb.listeners }

  abbrev pub enter : CircuitBreaker F → CircuitBreaker F
  enter cb = record cb { concurrent = add_u32 cb.concurrent 1 }

  -- The `switch` of Allow. The result is nil (`none`) or the error.
  unfoldable pub allow_in : State → CircuitBreaker F → ℕ → CircuitBreaker F × Option Error
  unfolding change_state
  allow_in state_closed cb now = (enter cb, none)
  allow_in state_open cb now =
      if ltb (cb.last_state_change + cb.opts.timeout) now
      then (enter (change_state cb state_half_open now), none)
      else (cb, some err_open_state)
  allow_in state_half_open cb now =
      if ltb 0 cb.half_open_allowed
      then (enter (record cb { half_open_allowed = cb.half_open_allowed - 1 }), none)
      else (cb, some err_open_state)
  allow_in (other n) cb now = (enter (change_state cb state_closed now), none)

  unfoldable pub allow : CircuitBreaker F → ℕ → CircuitBreaker F × Option Error
  unfolding allow_in
  allow cb now =
      if ltb 0 cb.opts.max_concurrent && leb cb.opts.max_concurrent cb.concurrent
      then (cb, some err_too_many_concurrent)
      else allow_in cb.state cb now

  -- `if cb.concurrent > 0 { cb.concurrent-- }`: truncated subtraction is exact.
  abbrev pub leave : CircuitBreaker F → CircuitBreaker F
  leave cb = record cb { concurrent = cb.concurrent - 1 }

  -- Failure's record of one failure: in the window, or by the plain counter.
  unfoldable pub count_failure : CircuitBreaker F → ℕ → CircuitBreaker F
  count_failure cb now =
      let w = keep (λ t. ltb now (t + cb.opts.window_size)) (cb.failures_window ++ now ∷ []) in
      if ltb 0 cb.opts.window_size
      then record cb { failures_window = w; failures = u32 (length w) }
      else record cb { failures = add_u32 cb.failures 1 }

  unfoldable pub failure_in : State → CircuitBreaker F → ℕ → CircuitBreaker F
  unfolding change_state
  failure_in state_half_open cb now = change_state cb state_open now
  failure_in state_closed cb now =
      if leb cb.opts.threshold cb.failures || leb cb.opts.threshold cb.consecutive_failures
      then change_state cb state_open now
      else cb
  failure_in _ cb now = cb

  unfoldable pub failure : CircuitBreaker F → ℕ → CircuitBreaker F
  unfolding count_failure failure_in
  failure cb now =
      let c = leave cb in
      let d = record c {
        last_failure = now;
        consecutive_failures = add_u32 cb.consecutive_failures 1;
      } in
      failure_in cb.state (count_failure d now) now

  unfoldable pub force_open : CircuitBreaker F → ℕ → CircuitBreaker F
  unfolding change_state
  force_open cb now = change_state cb state_open now

  unfoldable pub force_closed : CircuitBreaker F → ℕ → CircuitBreaker F
  unfolding change_state
  force_closed cb now = change_state cb state_closed now

  unfoldable pub reset : CircuitBreaker F → ℕ → CircuitBreaker F
  unfolding change_state
  reset cb now =
      let c = change_state cb state_closed now in
      record c {
        failures = 0;
        successes = 0;
        failures_window = [];
        half_open_allowed = c.half_open_original;
        concurrent = 0;
        consecutive_failures = 0;
      }

  unfoldable pub is_active : CircuitBreaker F → Bool
  unfolding same_state
  is_active cb = same_state cb.state state_open || same_state cb.state state_half_open

  unfoldable pub apply_options : CircuitBreaker F → Options F → CircuitBreaker F
  unfolding append_listener
  apply_options cb opts = record cb {
    opts = opts;
    half_open_original = opts.half_open_max_requests;
    listeners = append_listener cb.listeners opts.on_state_change;
  }

  unfoldable pub stats : CircuitBreaker F → ℕ → Stats
  stats cb now = record {
    state = cb.state;
    failures = cb.failures;
    consecutive_failures = cb.consecutive_failures;
    successes = cb.successes;
    current_requests = cb.concurrent;
    since = now - cb.last_state_change;
    last_failure = cb.last_failure;
    half_open_allowed = cb.half_open_allowed;
  }

-- One call of a method that changes the breaker, at the time of the call.
pub data Op (F : Type 0) : Type 0 where
  allows succeeds fails forces_open forces_closed resets : ℕ → Op F
  adds_listener : StateChangeListener → Op F
  applies_options : Options F → Op F

-- The methods that scale the half-open allowance by the progressive factor.
module _ {F : Type 0} (scale : ℕ → F → ℕ) where
  unfoldable pub success_in : State → CircuitBreaker F → ℕ → CircuitBreaker F
  unfolding change_state
  success_in state_half_open cb now =
      let c = record cb { successes = add_u32 cb.successes 1 } in
      let new_allowed = scale cb.half_open_original cb.opts.progressive_factor in
      if leb c.opts.success_threshold c.successes
      then change_state c state_closed now
      else if ltb 0 new_allowed
      then record c { half_open_allowed = add_u32 c.half_open_allowed new_allowed }
      else c
  success_in _ cb now = record cb { failures = 0; failures_window = [] }

  unfoldable pub success : CircuitBreaker F → ℕ → CircuitBreaker F
  unfolding success_in
  success cb now =
      let c = leave cb in success_in cb.state (record c { consecutive_failures = 0 }) now

  unfoldable pub step : CircuitBreaker F → Op F → CircuitBreaker F
  unfolding allow success failure force_open force_closed reset add_listener apply_options
  step cb (allows now) = (allow cb now).0
  step cb (succeeds now) = success cb now
  step cb (fails now) = failure cb now
  step cb (forces_open now) = force_open cb now
  step cb (forces_closed now) = force_closed cb now
  step cb (resets now) = reset cb now
  step cb (adds_listener l) = add_listener cb l
  step cb (applies_options o) = apply_options cb o

  unfoldable pub run : CircuitBreaker F → List (Op F) → CircuitBreaker F
  run cb [] = cb
  run cb (o ∷ os) = run (step cb o) os
