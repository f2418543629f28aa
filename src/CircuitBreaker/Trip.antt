-- ===== src/CircuitBreaker/Trip.antt =====
-- internal/circuitbreaker/circuitbreaker.go: when failures open a closed breaker.
use eidola.Common.{
  ℕ, ◌+◌, ◌≤◌, ◌<◌, ◌≡◌, refl, String, List, [], ◌∷◌, ◌++◌, ltb, length, length-append,
  length-keep-le, arith, ◌⊎◌, inl, inr, Bool-cases, leb, leb→le,
}
use eidola.CircuitBreaker.Defs.{state_closed, state_open, Options, CircuitBreaker, new, failure}
use eidola.CircuitBreaker.Invariant.{IsSound, Inv, new-Inv, failure-Inv}

module _ {F : Type 0} where
  -- The breaker after a run of failures at the given times.
  abbrev pub fail_all : CircuitBreaker F → List ℕ → CircuitBreaker F
  fail_all cb [] = cb
  fail_all cb (t ∷ ts) = fail_all (failure cb t) ts

module _ {F : Type 0} (o : Options F) (sound : IsSound o) where
  -- One failure in the closed state: the consecutive count alone decides.
  failure_closed :
      (cb : CircuitBreaker F) (now : ℕ)
      → Inv o cb
      → cb.state ≡ state_closed
      → cb.consecutive_failures + 1 < o.threshold
      → ((failure cb now).state ≡ state_closed)
        × ((failure cb now).consecutive_failures ≡ cb.consecutive_failures + 1)
  unfolding failure
  failure_closed cb now v c h = ground (
    arith,
    length-keep-le (λ t. ltb now (t + cb.opts.window_size)) (cb.failures_window ++ now ∷ []),
    length-append cb.failures_window (now ∷ []),
  )

  failure_trips :
      (cb : CircuitBreaker F) (now : ℕ)
      → Inv o cb
      → cb.state ≡ state_closed
      → o.threshold ≤ cb.consecutive_failures + 1
      → (failure cb now).state ≡ state_open
  unfolding failure
  failure_trips cb now v c h = ground arith

  failure_open :
      (cb : CircuitBreaker F) (now : ℕ)
      → cb.state ≡ state_open
      → (failure cb now).state ≡ state_open
  unfolding failure
  failure_open cb now c = ground arith

  stays_open :
      (cb : CircuitBreaker F) (ts : List ℕ)
      → cb.state ≡ state_open
      → (fail_all cb ts).state ≡ state_open
  stays_open cb [] c = c
  stays_open cb (t ∷ ts) c = stays_open (failure cb t) ts (failure_open cb t c)

  trip_from :
      (cb : CircuitBreaker F) (ts : List ℕ)
      → Inv o cb
      → cb.state ≡ state_closed
      → ((cb.consecutive_failures + length ts < o.threshold)
          × ((fail_all cb ts).state ≡ state_closed))
        ⊎ ((o.threshold ≤ cb.consecutive_failures + length ts)
            × ((fail_all cb ts).state ≡ state_open))
  trip_from cb [] v c = inl (omega (arith, v.closed_consecutive c), c)
  trip_from cb (t ∷ ts) v c = elim (Bool-cases (leb o.threshold (cb.consecutive_failures + 1))) [
    | inl h ↦
        let full = leb→le o.threshold (cb.consecutive_failures + 1) h in
        inr (omega arith, stays_open (failure cb t) ts (failure_trips cb t v c full))
    | inr h ↦
        let (closed, count) = failure_closed cb t v c (ground arith) in
        let rest = trip_from (failure cb t) ts (failure-Inv o sound cb t v) closed in
        elim rest [ inl r ↦ inl (omega arith, r.1) | inr r ↦ inr (omega arith, r.1) ]
  ]

  -- A new breaker that sees a run of failures with no success between them is closed after them
  -- exactly when they are fewer than the threshold, and open otherwise, whatever their times: the
  -- failure window never decides.
  pub trip-exact :
      (name : String) (now : ℕ) (ts : List ℕ)
      → ((length ts < o.threshold) × ((fail_all (new name o now) ts).state ≡ state_closed))
        ⊎ ((o.threshold ≤ length ts) × ((fail_all (new name o now) ts).state ≡ state_open))
  unfolding new
  trip-exact name now ts = elim (trip_from (new name o now) ts (new-Inv o sound name now) refl) [
    | inl r ↦ inl (omega arith, r.1)
    | inr r ↦ inr (omega arith, r.1)
  ]
