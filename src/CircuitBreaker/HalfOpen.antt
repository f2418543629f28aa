-- ===== src/CircuitBreaker/HalfOpen.antt =====
-- internal/circuitbreaker/circuitbreaker.go: how an open breaker probes and recovers.
use eidola.Common.{
  ℕ, suc, ◌+◌, ◌≤◌, ◌<◌, ◌≡◌, List, [], ◌∷◌, arith, min, inl, inr, ap, none, some, length, Option,
  Bool-cases, ltb, ltb→lt, ◌⊎◌,
}
use eidola.Common.Word.{u32_mod}
use eidola.CircuitBreaker.Defs.{
  state_closed, state_half_open, state_open, CircuitBreaker, allow, failure, success,
  err_open_state, Error, Options,
}

abbrev pub count_ok : Option Error → ℕ → ℕ
count_ok none n = suc n
count_ok (some e) n = n

module _ {F : Type 0} where
  -- How many of the calls of Allow at the given times let a request through, none of which ends.
  abbrev pub admitted : CircuitBreaker F → List ℕ → ℕ
  admitted cb [] = 0
  admitted cb (t ∷ ts) = let (c, r) = allow cb t in count_ok r (admitted c ts)

  probe_step :
      (cb : CircuitBreaker F) (now : ℕ)
      → cb.opts.max_concurrent ≡ 0
      → cb.state ≡ state_half_open
      → 0 < cb.half_open_allowed
      → ((allow cb now).1 ≡ none)
        × ((allow cb now).0.state ≡ state_half_open)
        × ((allow cb now).0.opts.max_concurrent ≡ 0)
        × ((allow cb now).0.half_open_allowed + 1 ≡ cb.half_open_allowed)
  unfolding allow
  probe_step cb now m h a = ground arith

  probe_stop :
      (cb : CircuitBreaker F) (now : ℕ)
      → cb.opts.max_concurrent ≡ 0
      → cb.state ≡ state_half_open
      → cb.half_open_allowed ≡ 0
      → allow cb now ≡ (cb, some err_open_state)
  unfolding allow
  probe_stop cb now m h a = ground arith

  half_open-admitted :
      (cb : CircuitBreaker F) (ts : List ℕ)
      → cb.opts.max_concurrent ≡ 0
      → cb.state ≡ state_half_open
      → admitted cb ts ≡ min cb.half_open_allowed (length ts)
  half_open-admitted cb [] m h = omega arith
  half_open-admitted cb (t ∷ ts) m h = elim (Bool-cases (ltb 0 cb.half_open_allowed)) [
    | inl more ↦
        let (ok, half, free, less) = probe_step cb t m h (ltb→lt _ _ more) in
        rw ok (omega (arith, half_open-admitted (allow cb t).0 ts free half))
    | inr done ↦
        let none_left : cb.half_open_allowed ≡ 0 = ground arith in
        rw (probe_stop cb t m h none_left) (omega (arith, half_open-admitted cb ts m h))
  ]

  wake :
      (cb : CircuitBreaker F) (now : ℕ)
      → cb.opts.max_concurrent ≡ 0
      → cb.state ≡ state_open
      → cb.last_state_change + cb.opts.timeout < now
      → ((allow cb now).1 ≡ none)
        × ((allow cb now).0.state ≡ state_half_open)
        × ((allow cb now).0.opts.max_concurrent ≡ 0)
        × ((allow cb now).0.half_open_allowed ≡ cb.half_open_original)
  unfolding allow
  wake cb now m h a = ground arith

  -- An open breaker without MaxConcurrent whose timeout has passed at the first call lets through
  -- the first request and HalfOpenMaxRequests more: the request that wakes it is not counted.
  wake-admitted :
      (cb : CircuitBreaker F) (t : ℕ) (ts : List ℕ)
      → cb.opts.max_concurrent ≡ 0
      → cb.state ≡ state_open
      → cb.last_state_change + cb.opts.timeout < t
      → admitted cb (t ∷ ts) ≡ min (cb.half_open_original + 1) (length (t ∷ ts))
  wake-admitted cb t ts m h late =
      let (ok, half, free, full) = wake cb t m h late in
      rw ok (omega (arith, half_open-admitted (allow cb t).0 ts free half))

  -- Until its timeout has passed an open breaker refuses every request and does not change.
  open_refuses :
      (cb : CircuitBreaker F) (now : ℕ)
      → cb.opts.max_concurrent ≡ 0
      → cb.state ≡ state_open
      → now ≤ cb.last_state_change + cb.opts.timeout
      → allow cb now ≡ (cb, some err_open_state)
  unfolding allow
  open_refuses cb now m h early = ground arith

  -- Any failure of a half-open breaker opens it again, with the time of the failure.
  pub half_open-failure :
      (cb : CircuitBreaker F) (now : ℕ)
      → cb.state ≡ state_half_open
      → ((failure cb now).state ≡ state_open) × ((failure cb now).last_state_change ≡ now)
  unfolding failure
  half_open-failure cb now h = ground arith

module _ {F : Type 0} (scale : ℕ → F → ℕ) where
  abbrev pub succeed_all : CircuitBreaker F → List ℕ → CircuitBreaker F
  succeed_all cb [] = cb
  succeed_all cb (t ∷ ts) = succeed_all (success scale cb t) ts

  success_counts :
      (cb : CircuitBreaker F) (now : ℕ)
      → cb.state ≡ state_half_open
      → cb.opts.success_threshold < u32_mod
      → cb.successes + 1 < cb.opts.success_threshold
      → ((success scale cb now).state ≡ state_half_open)
        × ((success scale cb now).successes ≡ cb.successes + 1)
        × ((success scale cb now).opts ≡ cb.opts)
  unfolding success
  success_counts cb now h w l = ground arith

  success_recovers :
      (cb : CircuitBreaker F) (now : ℕ)
      → cb.state ≡ state_half_open
      → cb.opts.success_threshold < u32_mod
      → cb.successes + 1 ≡ cb.opts.success_threshold
      → (success scale cb now).state ≡ state_closed
  unfolding success
  success_recovers cb now h w l = ground arith

  stays_closed :
      (cb : CircuitBreaker F) (ts : List ℕ)
      → cb.state ≡ state_closed
      → (succeed_all cb ts).state ≡ state_closed
  unfolding success
  stays_closed cb [] h = h
  stays_closed cb (t ∷ ts) h = stays_closed (success scale cb t) ts (ground arith)

  -- A half-open breaker that sees only successes is still half open after them if they, with those
  -- counted before, are fewer than SuccessThreshold, and is closed if they reach it.
  recovers :
      (cb : CircuitBreaker F) (ts : List ℕ)
      → cb.state ≡ state_half_open
      → cb.opts.success_threshold < u32_mod
      → cb.successes < cb.opts.success_threshold
      → ((cb.successes + length ts < cb.opts.success_threshold)
          × ((succeed_all cb ts).state ≡ state_half_open))
        ⊎ ((cb.opts.success_threshold ≤ cb.successes + length ts)
            × ((succeed_all cb ts).state ≡ state_closed))
  recovers cb [] h w l = inl (omega arith, h)
  recovers cb (t ∷ ts) h w l =
      elim (Bool-cases (ltb (cb.successes + 1) cb.opts.success_threshold)) [
        | inl more ↦
            let below = ltb→lt (cb.successes + 1) cb.opts.success_threshold more in
            let (half, count, kept) = success_counts cb t h w below in
            let same = ap (λ (o : Options F). o.success_threshold) kept in
            elim (recovers (success scale cb t) ts half (omega (arith, same))
              (omega (arith, same))) [
                | inl r ↦ inl (omega (arith, same), r.1)
                | inr r ↦ inr (omega (arith, same), r.1)
              ]
        | inr last ↦
            let closed = success_recovers cb t h w (ground arith) in
            inr (ground arith, stays_closed (success scale cb t) ts closed)
      ]
