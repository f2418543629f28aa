-- ===== src/Retry/Examples.antt =====
-- internal/retry/retry.go: tests, and the theorems at a call that succeeds at the third attempt.
use eidola.Common.{
  ℕ, zero, suc, ◌*◌, ◌/◌, ◌^◌, ◌<◌, ◌≡◌, refl, ◌⊎◌, inl, inr, true, false, some, [], ◌∷◌, arith,
  none, not, leb, Option, ◌==◌, length, if◌then◌else◌,
}
use eidola.Common.Int.{increment, pos, below, above}
use eidola.Retry.Retrier.{
  Retrier, Context as RetrierContext, do_from, do_plain, do_with_context, listenable_do,
}
use eidola.Retry.Agreement.{retriers-agree, do_plain-Stops}
use eidola.Retry.Budget.{Floats, Budget, can_retry, register_request, register_retry}
use eidola.Retry.Interceptor.{
  Policy, Context, elapsed, answered, World, Outcome, unary_client_interceptor,
  stream_client_interceptor, intercept, exponential_backoff, is_retryable, attempts, start, resume,
  calculate_delay, strategy_delay, renew, renew_from, with_timeout,
}
use eidola.Retry.Attempts.{fails_retryably}
use eidola.Retry.Calls.{
  Accounted, Sincere, interceptors-Accounted, interceptors-Sincere, intercept-persists,
}

-- Numbers of tenths in place of float64.
abbrev tenths : Floats ℕ
tenths = record {
  tenths = λ n. n;
  reached = λ a b r. leb (r * b) (10 * a);
  backoff = λ d n. pos (d * 2 ^ n);
  jitter = λ u f d. d;
  grow = λ f t. t * f / 10;
}

-- Errors are codes: Unavailable for the attempts 0 and 1, and then the value 7.
abbrev reply : ℕ → ℕ ⊎ ℕ
reply zero = inl 14
reply (suc zero) = inl 14
reply _ = inr 7

abbrev world : World ℕ ℕ ℕ
world = record {
  code_of = λ e. some e;
  draw = λ n. 0;
  wait = λ n d. elapsed;
  clock = λ n. n * 1000000000;
  respond = λ n c. reply n;
}

abbrev context : Context
context = record { deadline = some 60000000000 }

abbrev policy : Policy ℕ
policy = record {
  enabled = true;
  max_attempts = 3;
  base_delay = 100000000;
  max_delay = 150000000;
  strategy = exponential_backoff;
  jitter_factor = 2;
  retryable_codes = 14 ∷ 8 ∷ [];
  timeout_factor = 15;
  max_timeout = 30000000000;
}

abbrev budget : Budget ℕ
budget = record {
  max_concurrent_retries = 100;
  current_retries = pos 5;
  max_retry_ratio = 1;
  total_requests = 19;
  retried_requests = 0;
}

abbrev call : Outcome ℕ ℕ ℕ
call = unary_client_interceptor tenths world policy context budget

-- The second delay is cut to MaxDelay.
call_delays : call.delays ≡ pos 100000000 ∷ pos 150000000 ∷ []
unfolding unary_client_interceptor intercept attempts start resume can_retry below calculate_delay
    strategy_delay above is_retryable register_request register_retry renew renew_from with_timeout
    increment
call_delays = refl

-- The factor of 1.5 leaves the first deadline as it is, and MaxTimeout makes it earlier.
call_contexts :
    call.calls
    ≡ context ∷ record { deadline = some 31000000000 } ∷ record { deadline = some 31000000000 } ∷ []
unfolding unary_client_interceptor intercept attempts start resume can_retry below calculate_delay
    strategy_delay above is_retryable register_request register_retry renew renew_from with_timeout
    increment
call_contexts = refl

interceptors-Accounted_example :
    Accounted tenths world policy budget call
    × Accounted tenths world policy budget
        (stream_client_interceptor tenths world policy context budget)
interceptors-Accounted_example = interceptors-Accounted tenths world policy context budget refl

interceptors-Sincere_example :
    Sincere tenths world policy call
    × Sincere tenths world policy (stream_client_interceptor tenths world policy context budget)
interceptors-Sincere_example = interceptors-Sincere tenths world policy context budget refl

fails_first : (i : ℕ) (c : Context) → i < 2 → fails_retryably tenths world policy i c ≡ true
unfolding is_retryable
fails_first zero c h = refl
fails_first (suc zero) c h = refl
fails_first (suc (suc i)) c h = ground arith

intercept-persists_example :
    (intercept tenths world policy (λ n c. c) context budget).answer ≡ answered 7
intercept-persists_example =
    intercept-persists tenths world policy (λ n c. c) 2 5 context budget 7 refl fails_first
      (λ c. refl) (λ i d. refl) (λ j lt. ground arith) (ground arith) refl (ground arith)

stream_answer : (intercept tenths world policy (λ n c. c) context budget).answer ≡ answered 7
stream_answer =
    intercept-persists tenths world policy (λ n c. c) 2 5 context budget 7 refl fails_first
      (λ c. refl) (λ i d. refl) (λ j lt. ground arith) (ground arith) refl (ground arith)

abbrev three_times : Retrier ℕ
three_times = record {
  max_attempts = 3;
  next_backoff = λ n. n * 100;
  retry_condition = λ e. not (e == 9);
}

abbrev third_works : ℕ → Option ℕ
third_works n = if n == 2 then none else some 5

abbrev background : RetrierContext ℕ
background = record { err = λ n. none; done = λ n. none }

waits_twice : (do_plain three_times third_works).waits ≡ 100 ∷ 200 ∷ []
unfolding do_plain do_from
waits_twice = refl

retriers-agree_example :
    (do_with_context three_times background third_works ≡ do_plain three_times third_works)
    × ((listenable_do three_times true false third_works).0 ≡ do_plain three_times third_works)
retriers-agree_example =
    retriers-agree three_times background true false third_works (λ i. refl) (λ i. refl)

first_two_fail : (i : ℕ) → i < 2 → (e : ℕ) × ((third_works i ≡ some e) × (not (e == 9) ≡ true))
first_two_fail i h = (5, (ground arith, refl))

do_plain-Stops_example :
    ((do_plain three_times third_works).error ≡ none)
    × ((do_plain three_times third_works).calls ≡ 3)
    × (length (do_plain three_times third_works).waits ≡ 2)
do_plain-Stops_example =
    do_plain-Stops three_times third_works 2 first_two_fail (omega arith) (inl refl)
