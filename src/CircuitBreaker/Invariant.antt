-- ===== src/CircuitBreaker/Invariant.antt =====
-- internal/circuitbreaker/circuitbreaker.go: what holds between two calls while the options stay.
use eidola.Common.{
  ℕ, ◌+◌, ◌≤◌, ◌<◌, ◌≡◌, String, Bool, true, false, [], ◌∷◌, ◌++◌, ltb, length, length-append, All,
  length-keep-le, arith, List,
}
use eidola.Common.Word.{u32_mod}
use eidola.CircuitBreaker.Defs.{
  state_closed, Options, CircuitBreaker, Op, allows, succeeds, fails, forces_open, forces_closed,
  resets, adds_listener, applies_options, new, allow, success, failure, step, run,
}

-- The thresholds that the methods compare uint32 counters with.
pub record IsSound {F : Type 0} (o : Options F) : Type 0 where
  pub threshold_pos : 0 < o.threshold
  pub threshold_u32 : o.threshold < u32_mod
  pub concurrent_u32 : o.max_concurrent < u32_mod

pub record Inv {F : Type 0} (o : Options F) (cb : CircuitBreaker F) : Type 0 where
  pub same_opts : cb.opts ≡ o
  pub below_limit : 0 < o.max_concurrent → cb.concurrent ≤ o.max_concurrent
  pub closed_consecutive : cb.state ≡ state_closed → cb.consecutive_failures < o.threshold
  pub closed_failures : cb.state ≡ state_closed → cb.failures ≤ cb.consecutive_failures
  pub closed_window : cb.state ≡ state_closed → length cb.failures_window ≤ cb.consecutive_failures

abbrev pub keeps_options : {F : Type 0} → Op F → Bool
keeps_options (applies_options o) = false
keeps_options _ = true

module _ {F : Type 0} (o : Options F) (sound : IsSound o) where
  pub new-Inv : (name : String) (now : ℕ) → Inv o (new name o now)
  unfolding new
  new-Inv name now = ground arith

  allow-Inv : (cb : CircuitBreaker F) (now : ℕ) → Inv o cb → Inv o (allow cb now).0
  unfolding allow
  allow-Inv cb now v = ground arith

  pub failure-Inv : (cb : CircuitBreaker F) (now : ℕ) → Inv o cb → Inv o (failure cb now)
  unfolding failure
  failure-Inv cb now v = ground (
    arith,
    length-keep-le (λ t. ltb now (t + cb.opts.window_size)) (cb.failures_window ++ now ∷ []),
    length-append cb.failures_window (now ∷ []),
  )

  success-Inv :
      (scale : ℕ → F → ℕ) (cb : CircuitBreaker F) (now : ℕ)
      → Inv o cb
      → Inv o (success scale cb now)
  unfolding success
  success-Inv scale cb now v = ground arith

  -- Every method but ApplyOptions keeps the invariant.
  pub step-Inv :
      (scale : ℕ → F → ℕ) (cb : CircuitBreaker F) (op : Op F)
      → keeps_options op ≡ true
      → Inv o cb
      → Inv o (step scale cb op)
  unfolding step
  step-Inv scale cb (allows now) k v = allow-Inv cb now v
  step-Inv scale cb (succeeds now) k v = success-Inv scale cb now v
  step-Inv scale cb (fails now) k v = failure-Inv cb now v
  step-Inv scale cb (forces_open now) k v = ground arith
  step-Inv scale cb (forces_closed now) k v = ground arith
  step-Inv scale cb (resets now) k v = ground arith
  step-Inv scale cb (adds_listener l) k v = ground arith
  step-Inv scale cb (applies_options p) k v = cc

  -- After any history of calls without ApplyOptions the invariant holds: with MaxConcurrent set no
  -- more than MaxConcurrent requests are counted as running, and a closed breaker has fewer
  -- consecutive failures than the threshold and no more failures counted in its window than those.
  pub run-Inv :
      (scale : ℕ → F → ℕ) (cb : CircuitBreaker F) (ops : List (Op F))
      → All (λ op. keeps_options op ≡ true) ops
      → Inv o cb
      → Inv o (run scale cb ops)
  unfolding run
  run-Inv scale cb [] k v = v
  run-Inv scale cb (op ∷ ops) k v =
      run-Inv scale (step scale cb op) ops k.1 (step-Inv scale cb op k.0 v)
