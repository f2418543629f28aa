-- ===== src/CircuitBreaker/Examples.antt =====
-- internal/circuitbreaker/circuitbreaker.go: tests, and the theorems at concrete breakers. The
-- progressive factor is given in percent.
use eidola.Common.{refl, ◌≡◌, ℕ, arith, ◌<◌, List, ◌∷◌, [], false, ◌*◌, some, ◌⊎◌, ◌/◌, ◌≤◌}
use eidola.CircuitBreaker.Defs.{
  CircuitBreaker, step, run, Options, fails, failure, state_half_open, new, state_open, Op, notify,
  state_closed, allows,
}
use eidola.CircuitBreaker.Invariant.{IsSound, Inv, new-Inv, run-Inv}
use eidola.CircuitBreaker.Trip.{trip-exact, fail_all}
use eidola.CircuitBreaker.HalfOpen.{half_open-failure}
use eidola.CircuitBreaker.Notify.{Edge, step-Edge}

abbrev percent : ℕ → ℕ → ℕ
percent n f = n * f / 100

-- DefaultOptions, with a listener and three half-open requests.
abbrev sample : Options ℕ
sample = record {
  threshold = 3;
  timeout = 5;
  half_open_max_requests = 2;
  progressive_factor = 200;
  max_concurrent = 4;
  window_size = 10;
  success_threshold = 2;
  force_break = false;
  on_state_change = some 7;
}

sample-IsSound : IsSound sample
sample-IsSound = omega arith

abbrev free : Options ℕ
free = record sample { max_concurrent = 0 }

abbrev opened : CircuitBreaker ℕ
opened = record {
  name = "db";
  opts = free;
  state = state_open;
  failures = 3;
  successes = 0;
  last_state_change = 30;
  half_open_allowed = 0;
  half_open_original = 2;
  concurrent = 0;
  failures_window = [];
  listeners = some 7 ∷ [];
  last_failure = 30;
  consecutive_failures = 3;
  notified = [];
}

abbrev probing : CircuitBreaker ℕ
probing = record opened { state = state_half_open; half_open_allowed = 2 }

abbrev history : List (Op ℕ)
history = allows 1 ∷ fails 2 ∷ allows 3 ∷ fails 4 ∷ allows 5 ∷ fails 6 ∷ allows 20 ∷ []

history_wakes : (run percent (new "db" sample 0) history).state ≡ state_half_open
unfolding run step new
history_wakes = refl

history_notified :
    (run percent (new "db" sample 0) history).notified
    ≡ record { listener = 7; name = "db"; from = state_closed; to = state_open }
      ∷ record { listener = 7; name = "db"; from = state_open; to = state_half_open }
      ∷ []
unfolding run step new notify
history_notified = refl

run-Inv_example : Inv sample (run percent (new "db" sample 0) history)
run-Inv_example =
    run-Inv sample sample-IsSound percent (new "db" sample 0) history (ground arith)
      (new-Inv sample sample-IsSound "db" 0)

trip-exact_example :
    ((2 < 3) × ((fail_all (new "db" sample 0) (5 ∷ 90 ∷ [])).state ≡ state_closed))
    ⊎ ((3 ≤ 2) × ((fail_all (new "db" sample 0) (5 ∷ 90 ∷ [])).state ≡ state_open))
trip-exact_example = trip-exact sample sample-IsSound "db" 0 (5 ∷ 90 ∷ [])

half_open-failure_example :
    ((failure probing 50).state ≡ state_open) × ((failure probing 50).last_state_change ≡ 50)
half_open-failure_example = half_open-failure probing 50 refl

step-Edge_example : Edge {F = ℕ} (fails 60) state_half_open (step percent probing (fails 60)).state
step-Edge_example = step-Edge percent probing (fails 60)
