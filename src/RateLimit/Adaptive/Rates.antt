-- ===== src/RateLimit/Adaptive/Rates.antt =====
-- ratelimit/adaptive_limiter.go: how the rate changes.
use eidola.Common.{
  ℕ, zero, suc, ◌≡◌, refl, ap, ◌∙◌, false, Option, none, List, [], ◌∷◌, arith, ltb, keep,
}
use eidola.RateLimit.Adaptive.{
  Arithmetic, Buckets, AdaptiveLimiterOptions, AdaptiveLimiter, zeros, average,
  default_adaptive_limiter_options, get_cpu_usage, scaled_rate, slowed_rate, limited_rate,
  next_rate, new_adaptive_limiter, allow, allow_with_context, record_metrics, adjust_rate,
}

-- What happens to a limiter: calls at given times, and the ticks of the control. RecordMetrics is
-- called with the caller's context, which has no start time.
pub data Event (E : Type 0) : Type 0 where
  asks records adjusts : ℕ → Event E
  asks_with_context : ℕ → Option E → ℕ → Event E

-- float64 compares these numbers as they are.
pub record ComparesLiterals {F : Type 0} (floats : Arithmetic F) : Type 0 where
  pub high : floats.less (floats.literal "0.75") (floats.literal "0.5") ≡ false
  pub low : floats.less (floats.literal "0.5") (floats.literal "0.50") ≡ false
  pub least : floats.less (floats.literal "100") (floats.literal "10") ≡ false
  pub most : floats.less (floats.literal "1000") (floats.literal "100") ≡ false

keep-zeros : (n : ℕ) → keep (ltb 0) (zeros n) ≡ []
unfolding zeros
keep-zeros zero = refl
keep-zeros (suc n) = ground (arith, keep-zeros n)

average-zeros : (n : ℕ) → average (zeros n) ≡ 0
unfolding average
average-zeros n = ground (arith, keep-zeros n)

module _ {F : Type 0} (floats : Arithmetic F) where
  -- After adjustRate the rate is within the limits, if these are in order.
  next_rate_bounded :
      (opts : AdaptiveLimiterOptions F) (cpu : F) (avg : ℕ) (current : F)
      → ((x : F) → floats.less x x ≡ false)
      → floats.less opts.max_rate opts.min_rate ≡ false
      → (floats.less (next_rate floats opts cpu avg current) opts.min_rate ≡ false)
        × (floats.less opts.max_rate (next_rate floats opts cpu avg current) ≡ false)
  unfolding next_rate limited_rate
  next_rate_bounded opts cpu avg current irreflexive order =
      ground (arith, irreflexive opts.min_rate, irreflexive opts.max_rate)

  default_kept :
      ComparesLiterals floats
      → next_rate floats
          (default_adaptive_limiter_options floats)
          (get_cpu_usage floats)
          0
          (floats.literal "100")
        ≡ floats.literal "100"
  unfolding next_rate limited_rate slowed_rate scaled_rate
  default_kept compares = ground (arith, compares.high, compares.low, compares.least, compares.most)

module _ {B F : Type 0} (floats : Arithmetic F) (buckets : Buckets B F) where
  -- A limiter with the default options, the initial rate and no response time.
  abbrev pub IsUntouched : AdaptiveLimiter B F → Type 0
  IsUntouched l =
      (l.opts ≡ default_adaptive_limiter_options floats)
      × (l.current_rate ≡ floats.literal "100")
      × (l.response_times ≡ zeros 100)

  allow-same :
      (l : AdaptiveLimiter B F) (now : ℕ)
      → ((allow floats buckets l now).0.opts ≡ l.opts)
        × ((allow floats buckets l now).0.current_rate ≡ l.current_rate)
        × ((allow floats buckets l now).0.response_times ≡ l.response_times)
  unfolding allow
  allow-same l now = ground arith

  adjust_rate-IsUntouched :
      (l : AdaptiveLimiter B F) (now : ℕ)
      → ComparesLiterals floats
      → IsUntouched l
      → IsUntouched (adjust_rate floats buckets l now)
  unfolding adjust_rate
  adjust_rate-IsUntouched l now compares (opts, rate, times) =
      let given = default_adaptive_limiter_options floats in
      let cpu = get_cpu_usage floats in
      let avg : average l.response_times ≡ 0 = ap average times ∙ average-zeros 100 in
      let kept =
        ap (λ o. next_rate floats o cpu (average l.response_times) l.current_rate) opts
        ∙ ap (λ n. next_rate floats given cpu n l.current_rate) avg
        ∙ ap (next_rate floats given cpu 0) rate
        ∙ default_kept floats compares in
      (opts, kept, times)

module _ {B F E : Type 0} (floats : Arithmetic F) (buckets : Buckets B F) where
  unfoldable pub step : AdaptiveLimiter B F → Event E → AdaptiveLimiter B F
  unfolding allow allow_with_context record_metrics adjust_rate
  step l (asks now) = (allow floats buckets l now).0
  step l (records now) = record_metrics floats buckets l none now
  step l (adjusts now) = adjust_rate floats buckets l now
  step l (asks_with_context now ends later) = (allow_with_context floats buckets l now ends later).0

  unfoldable pub run : AdaptiveLimiter B F → List (Event E) → AdaptiveLimiter B F
  unfolding step
  run l [] = l
  run l (e ∷ es) = run (step l e) es

  step-IsUntouched :
      (l : AdaptiveLimiter B F) (e : Event E)
      → ComparesLiterals floats
      → IsUntouched floats buckets l
      → IsUntouched floats buckets (step l e)
  unfolding step allow_with_context record_metrics adjust_rate
  step-IsUntouched l (asks now) compares (opts, rate, times) =
      ground (arith, allow-same floats buckets l now)
  step-IsUntouched l (records now) compares h = h
  step-IsUntouched l (adjusts now) compares h =
      adjust_rate-IsUntouched floats buckets l now compares h
  step-IsUntouched l (asks_with_context now ends later) compares (opts, rate, times) = ground (
    arith,
    allow-same floats buckets l now,
    allow-same floats buckets (allow floats buckets l now).0 later,
  )

  run-IsUntouched :
      (l : AdaptiveLimiter B F) (es : List (Event E))
      → ComparesLiterals floats
      → IsUntouched floats buckets l
      → IsUntouched floats buckets (run l es)
  unfolding run
  run-IsUntouched l [] compares h = h
  run-IsUntouched l (e ∷ es) compares h =
      run-IsUntouched (step l e) es compares (step-IsUntouched l e compares h)

  -- A new limiter with the default options, after the events.
  abbrev pub run_default : ℕ → List (Event E) → AdaptiveLimiter B F
  run_default now es =
      run (new_adaptive_limiter floats buckets (default_adaptive_limiter_options floats) now) es

  -- With the default options the limiter never adapts: whatever is called, with contexts of the
  -- callers, and whenever the control runs, its rate is the initial one and it has no response time.
  pub run_never_adapts :
      (now : ℕ) (es : List (Event E))
      → ComparesLiterals floats
      → ((run_default now es).current_rate ≡ floats.literal "100")
        × ((run_default now es).response_times ≡ zeros 100)
  unfolding new_adaptive_limiter
  run_never_adapts now es compares =
      let start =
        new_adaptive_limiter floats buckets (default_adaptive_limiter_options floats) now in
      let (opts, rate, times) = run-IsUntouched start es compares (refl, refl, refl) in
      (rate, times)
