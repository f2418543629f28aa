-- ===== src/CircuitBreaker/Notify.antt =====
-- internal/circuitbreaker/circuitbreaker.go: which calls change the state, and who hears of it.
use eidola.Common.{◌≡◌, ℕ, ◌++◌, arith, if◌then◌else◌, []}
use mathlib.Core.List.{append-nil}
use eidola.CircuitBreaker.Defs.{
  CircuitBreaker, step, Op, State, fails, state_closed, same_state, state_open, notify,
  state_half_open, allows, succeeds, forces_open, forces_closed, resets, other,
}

-- The changes of state that a call may make.
pub data Edge {F : Type 0} : Op F → State → State → Type 0 where
  keeps : {op : Op F} {s : State} → Edge op s s
  trips : {t : ℕ} → Edge (fails t) state_closed state_open
  reopens : {t : ℕ} → Edge (fails t) state_half_open state_open
  wakes : {t : ℕ} → Edge (allows t) state_open state_half_open
  recovers : {t : ℕ} → Edge (succeeds t) state_half_open state_closed
  forced_open : {t : ℕ} {s : State} → Edge (forces_open t) s state_open
  forced_closed : {t : ℕ} {s : State} → Edge (forces_closed t) s state_closed
  resets_to : {t : ℕ} {s : State} → Edge (resets t) s state_closed
  repairs : {t : ℕ} {n : ℕ} → Edge (allows t) (other n) state_closed

ruleset edges =
    (keeps, trips, reopens, wakes, recovers, forced_open, forced_closed, resets_to, repairs)

module _ {F : Type 0} (scale : ℕ → F → ℕ) where
  -- Every call leaves the state as it is or changes it along an edge: Failure from closed or half
  -- open to open, Allow from open to half open and from an unknown state to closed, Success from half
  -- open to closed, ForceOpen from any to open, and ForceClosed and Reset from any to closed.
  pub step-Edge : (cb : CircuitBreaker F) (op : Op F) → Edge op cb.state (step scale cb op).state
  unfolding step
  step-Edge cb op = grind (arith, edges)

  -- Every call logs one notification to each listener that is not nil, with the old and the new
  -- state, if the state has changed, and none otherwise.
  step-notified :
      (cb : CircuitBreaker F) (op : Op F)
      → (step scale cb op).notified
        ≡ cb.notified
          ++ (if same_state cb.state (step scale cb op).state
              then []
              else notify cb.name cb.state (step scale cb op).state cb.listeners)
  unfolding step same_state
  step-notified cb (allows t) = ground (arith, append-nil cb.notified)
  step-notified cb (succeeds t) = ground (arith, append-nil cb.notified)
  step-notified cb (fails t) = ground (arith, append-nil cb.notified)
  step-notified cb op = ground (arith, append-nil cb.notified)
