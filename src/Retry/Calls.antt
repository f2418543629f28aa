-- ===== src/Retry/Calls.antt =====
-- internal/retry/retry.go, RetryInterceptor: how often it calls, what it gives back to the budget,
-- and what it answers.
use eidola.Common.{
  ℕ, zero, suc, ◌+◌, ◌≤◌, ◌<◌, ◌≡◌, ◌≢◌, inr, true, false, Option, none, some, arith, length, All,
}
use eidola.Common.Int.{ℤ, pos, above}
use eidola.Retry.Budget.{Floats, Budget, register_request, register_retry, release_retries}
use eidola.Retry.Interceptor.{
  Policy, Context, elapsed, answered, returns_nil, World, Outcome, with_timeout, renew_from, renew,
  resume, start, attempts, intercept, unary_client_interceptor, stream_client_interceptor,
}
use eidola.Retry.Attempts.{
  release-registered, last_of, attempts-budget, attempts-calls, attempts-first, attempts-delays,
  attempts-answer, attempts-success, attempts-Retried, attempts-persists, fails_retryably, Retried,
}

-- The context has a deadline, and none later than d.
abbrev pub Until : ℕ → Context → Type 0
Until d ctx = elim ctx.deadline [ none ↦ ⊥ | some e ↦ e ≤ d ]

module _ {F E S : Type 0} (floats : Floats F) (w : World F E S) (p : Policy F) where
  renew-Until : (d n : ℕ) (ctx : Context) → Until d ctx → Until d (renew floats w p n ctx)
  unfolding renew renew_from with_timeout
  renew-Until d n ctx h = ground arith

  attempts-Until :
      (d left n : ℕ) (ctx : Context) (b : Budget F) (last : Option E)
      → Until d ctx
      → All (Until d) (attempts floats w p (renew floats w p) left n ctx b last).calls
  unfolding attempts start resume
  attempts-Until d zero n ctx b last h = ground arith
  attempts-Until d (suc left) zero ctx b last h = grind (arith, attempts-Until d left 1 ctx b)
  attempts-Until d (suc left) (suc n) ctx b last h = grind (
    arith,
    renew-Until d (suc n) ctx h,
    attempts-Until d left (suc (suc n)) (renew floats w p (suc n) ctx) (register_retry b),
  )

  abbrev whole : (ℕ → Context → Context) → Context → Budget F → Outcome F E S
  whole extend ctx b =
      attempts floats w p extend (suc p.max_attempts) 0 ctx (register_request b) none

  intercept-whole :
      (extend : ℕ → Context → Context) (ctx : Context) (b : Budget F)
      → p.enabled ≡ true
      → intercept floats w p extend ctx b ≡ record (whole extend ctx b) {
        budget = release_retries (whole extend ctx b).retries (whole extend ctx b).budget;
      }
  unfolding intercept
  intercept-whole extend ctx b h = ground arith

  -- The budget is as before but for its counts of requests and retries.
  abbrev pub Accounted : Budget F → Outcome F E S → Type 0
  Accounted b o =
      (o.budget ≡ record b {
        total_requests = b.total_requests + 1;
        retried_requests = b.retried_requests + o.retries;
      })
      × (length o.calls ≡ suc o.retries)
      × (o.retries ≤ p.max_attempts)
      × All (λ d. above d p.max_delay ≡ false) o.delays

  intercept-Accounted :
      (extend : ℕ → Context → Context) (ctx : Context) (b : Budget F)
      → p.enabled ≡ true
      → Accounted b (intercept floats w p extend ctx b)
  unfolding register_request
  intercept-Accounted extend ctx b h = ground (
    arith,
    intercept-whole extend ctx b h,
    attempts-budget floats w p extend (suc p.max_attempts) 0 ctx (register_request b) none,
    attempts-calls floats w p extend (suc p.max_attempts) 0 ctx (register_request b) none,
    attempts-first floats w p extend p.max_attempts ctx (register_request b),
    attempts-delays floats w p extend (suc p.max_attempts) 0 ctx (register_request b) none,
    release-registered (intercept floats w p extend ctx b).retries (register_request b),
  )

  -- Either interceptor, if enabled, invokes once more than it retries, retries at most
  -- MaxAttempts times, and waits at most MaxDelay before each; it gives back all it took of the
  -- budget of concurrent retries, and counts one request and its retries.
  pub interceptors-Accounted :
      (ctx : Context) (b : Budget F)
      → p.enabled ≡ true
      → Accounted b (unary_client_interceptor floats w p ctx b)
        × Accounted b (stream_client_interceptor floats w p ctx b)
  unfolding unary_client_interceptor stream_client_interceptor
  interceptors-Accounted ctx b h =
      (intercept-Accounted (renew floats w p) ctx b h, intercept-Accounted (λ n c. c) ctx b h)

  -- The answer is a value or an error, and every invocation but the last failed retryably.
  abbrev pub Sincere : Outcome F E S → Type 0
  Sincere o = (o.answer ≢ returns_nil) × Retried floats w p 0 o.calls

  intercept-Sincere :
      (extend : ℕ → Context → Context) (ctx : Context) (b : Budget F)
      → p.enabled ≡ true
      → Sincere (intercept floats w p extend ctx b)
  unfolding intercept
  intercept-Sincere extend ctx b h = ground (
    arith,
    intercept-whole extend ctx b h,
    attempts-answer floats w p extend p.max_attempts ctx (register_request b),
    attempts-Retried floats w p extend (suc p.max_attempts) 0 ctx (register_request b) none,
  )

  -- An interceptor that is enabled answers with a value or an error, and repeats a call only after
  -- an error with a retryable code.
  pub interceptors-Sincere :
      (ctx : Context) (b : Budget F)
      → p.enabled ≡ true
      → Sincere (unary_client_interceptor floats w p ctx b)
        × Sincere (stream_client_interceptor floats w p ctx b)
  unfolding unary_client_interceptor stream_client_interceptor
  interceptors-Sincere ctx b h =
      (intercept-Sincere (renew floats w p) ctx b h, intercept-Sincere (λ n c. c) ctx b h)

  -- When an interceptor that is enabled answers with a value, it is what the last invocation
  -- returned, whose number is that of the retries.
  intercept-success :
      (extend : ℕ → Context → Context) (ctx : Context) (b : Budget F) (s : S)
      → p.enabled ≡ true
      → (intercept floats w p extend ctx b).answer ≡ answered s
      → w.respond
          (intercept floats w p extend ctx b).retries
          (last_of ctx (intercept floats w p extend ctx b).calls)
        ≡ inr s
  unfolding intercept
  intercept-success extend ctx b s h a = ground (
    arith,
    intercept-whole extend ctx b h,
    attempts-first floats w p extend p.max_attempts ctx (register_request b),
    attempts-success floats w p extend (suc p.max_attempts) 0 ctx (register_request b) none s,
  )

  -- If the invocations before number k, which is at most MaxAttempts, fail with a retryable
  -- error and number k returns a value, in every context, then an enabled interceptor answers
  -- with that value, where the context is not cancelled, more than k concurrent retries are left in
  -- the budget, and its ratio is not reached by the retries counted before each of the k: those
  -- before the call and those of the call itself, among the requests with this one.
  pub intercept-persists :
      (extend : ℕ → Context → Context) (k m : ℕ) (ctx : Context) (b : Budget F) (s : S)
      → p.enabled ≡ true
      → ((i : ℕ) (c : Context) → i < k → fails_retryably floats w p i c ≡ true)
      → ((c : Context) → w.respond k c ≡ inr s)
      → ((i : ℕ) (d : ℤ) → w.wait i d ≡ elapsed)
      → ((j : ℕ)
          → j < k
          → floats.reached (b.retried_requests + j) (b.total_requests + 1) b.max_retry_ratio
            ≡ false)
      → k ≤ p.max_attempts
      → b.current_retries ≡ pos m
      → m + k < b.max_concurrent_retries
      → (intercept floats w p extend ctx b).answer ≡ answered s
  unfolding intercept register_request
  intercept-persists extend k m ctx b s h f g wt r kp c mx = ground (
    arith,
    intercept-whole extend ctx b h,
    attempts-persists floats w p extend (suc p.max_attempts) 0 k m ctx (register_request b) none s f
        g wt (λ j lt le. r j lt),
  )

  -- If the caller's context has a deadline, every invocation by an enabled unary interceptor
  -- has one, and none later than the caller's, whatever the policy's factor.
  unary-Until :
      (d : ℕ) (ctx : Context) (b : Budget F)
      → p.enabled ≡ true
      → Until d ctx
      → All (Until d) (unary_client_interceptor floats w p ctx b).calls
  unfolding unary_client_interceptor intercept
  unary-Until d ctx b h u =
      ground (arith, attempts-Until d (suc p.max_attempts) 0 ctx (register_request b) none u)
