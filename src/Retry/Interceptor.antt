-- ===== src/Retry/Interceptor.antt =====
-- internal/retry/retry.go, RetryInterceptor. A call of an interceptor is a function of the budget
-- as nobody else changes it meanwhile, and of a World that answers for what it waits on and calls.
use eidola.Common.{
  ℕ, zero, suc, ◌+◌, ◌-◌, min, ◌⊎◌, inl, inr, Bool, true, false, not, ◌||◌, Option, none, some,
  List, [], ◌∷◌, ◌++◌, ltb, ◌==◌, if◌then◌else◌, any,
}
use eidola.Common.Int.{ℤ, pos, above, ◌+ℤ◌}
use eidola.Retry.Budget.{
  Floats, Budget, can_retry, register_request, register_retry, release_retries,
}

-- The last is any other value of the uint8.
pub data Strategy : Type 0 where
  fixed_delay exponential_backoff randomized_backoff other_strategy : Strategy

pub record Policy (F : Type 0) : Type 0 where
  pub enabled : Bool
  pub max_attempts : ℕ
  pub base_delay : ℕ
  pub max_delay : ℕ
  pub strategy : Strategy
  pub jitter_factor : F
  pub retryable_codes : List ℕ
  pub timeout_factor : F
  pub max_timeout : ℕ

-- The part of a context that the interceptor reads.
pub record Context : Type 0 where
  pub deadline : Option ℕ

-- How the select between ctx.Done and the timer ends.
pub data Wait (E : Type 0) : Type 0 where
  cancelled : E → Wait E
  elapsed : Wait E

-- What an invocation, or the interceptor, returns: a value (the stream, or nothing for an unary
-- call) with a nil error, or an error.
pub data Answer (E S : Type 0) : Type 0 where
  answered : S → Answer E S
  failed : E → Answer E S
  -- Neither a value nor an error: the zero lastErr.
  returns_nil : Answer E S

-- What the interceptor meets: the number of the attempt is the first argument of each.
pub record World (F E S : Type 0) : Type 0 where
  pub code_of : E → Option ℕ
  pub draw : ℕ → F
  pub wait : ℕ → ℤ → Wait E
  pub clock : ℕ → ℕ
  pub respond : ℕ → Context → E ⊎ S

-- The contexts of the invocations, the delays waited for, the number of registered retries, the
-- budget and the answer.
pub record Outcome (F E S : Type 0) : Type 0 where
  pub calls : List Context
  pub delays : List ℤ
  pub retries : ℕ
  pub budget : Budget F
  pub answer : Answer E S

module _ {F E S : Type 0} (floats : Floats F) (w : World F E S) where
  -- codes.Unavailable, ResourceExhausted, Aborted and Internal are 14, 8, 10 and 13.
  unfoldable pub default_policy : Policy F
  default_policy = record {
    enabled = true;
    max_attempts = 3;
    base_delay = 100000000;
    max_delay = 5000000000;
    strategy = exponential_backoff;
    jitter_factor = floats.tenths 2;
    retryable_codes = 14 ∷ 8 ∷ 10 ∷ 13 ∷ [];
    timeout_factor = floats.tenths 15;
    max_timeout = 30000000000;
  }

  unfoldable pub is_retryable : Policy F → E → Bool
  is_retryable p e = elim (w.code_of e) [
    | none ↦ false
    | some c ↦ any (λ x. c == x) p.retryable_codes
  ]

  unfoldable pub strategy_delay : Policy F → ℕ → Strategy → ℤ
  strategy_delay p attempt fixed_delay = pos p.base_delay
  strategy_delay p attempt exponential_backoff = floats.backoff p.base_delay (attempt - 1)
  strategy_delay p attempt randomized_backoff =
      let base_delay = floats.backoff p.base_delay (attempt - 1) in
      base_delay +ℤ floats.jitter (w.draw attempt) p.jitter_factor base_delay
  strategy_delay p attempt other_strategy = pos 0

  unfoldable pub calculate_delay : Policy F → ℕ → ℤ
  calculate_delay p attempt =
      let delay = strategy_delay p attempt p.strategy in
      if above delay p.max_delay then pos p.max_delay else delay

  -- context.WithTimeout never moves a deadline later.
  unfoldable pub with_timeout : Context → ℕ → ℕ → Context
  with_timeout ctx now timeout = record {
    deadline = elim ctx.deadline [
      | none ↦ some (now + timeout)
      | some d ↦ some (min d (now + timeout))
    ];
  }

  unfoldable pub renew_from : Policy F → Context → ℕ → Option ℕ → Context
  renew_from p ctx now none = ctx
  renew_from p ctx now (some deadline) =
      let timeout = floats.grow p.timeout_factor (deadline - now) in
      if ltb now deadline
      then with_timeout ctx now (if ltb p.max_timeout timeout then p.max_timeout else timeout)
      else ctx

  -- The context for a retry of an unary call.
  unfoldable pub renew : Policy F → ℕ → Context → Context
  renew p attempt ctx = renew_from p ctx (w.clock attempt) ctx.deadline

  -- What precedes the invocation of an attempt: the loop goes on with a context, a budget, the
  -- delays and the retries of this attempt, or leaves with the delays and the answer.
  pub data Start : Type 0 where
    goes_on : Context → Budget F → List ℤ → ℕ → Start
    leaves : List ℤ → Answer E S → Start

  unfoldable pub as_error : Option E → Answer E S
  as_error none = returns_nil
  as_error (some e) = failed e

  unfoldable pub resume : Policy F → (Context → Context) → Context → Budget F → ℤ → Wait E → Start
  resume p extend ctx b delay (cancelled e) = leaves (delay ∷ []) (failed e)
  resume p extend ctx b delay elapsed = goes_on (extend ctx) (register_retry b) (delay ∷ []) 1

  unfoldable pub start :
      Policy F → (ℕ → Context → Context) → ℕ → Context → Budget F → Option E → Start
  start p extend zero ctx b last_err = goes_on ctx b [] 0
  start p extend (suc n) ctx b last_err =
      let delay = calculate_delay p (suc n) in
      if can_retry floats b
      then resume p (extend (suc n)) ctx b delay (w.wait (suc n) delay)
      else leaves [] (as_error last_err)

  -- The loop over the attempts, of which `left` remain, from the attempt `n` on.
  unfoldable pub attempts :
      Policy F → (ℕ → Context → Context) → ℕ → ℕ → Context → Budget F → Option E → Outcome F E S
  attempts p extend zero n ctx b last_err = record {
    calls = [];
    delays = [];
    retries = 0;
    budget = b;
    answer = as_error last_err;
  }
  attempts p extend (suc left) n ctx b last_err = elim (start p extend n ctx b last_err) [
    | leaves ds a ↦ record { calls = []; delays = ds; retries = 0; budget = b; answer = a }
    | goes_on ctx1 b1 ds k ↦ elim (w.respond n ctx1) [
      | inr s ↦ record {
        calls = ctx1 ∷ [];
        delays = ds;
        retries = k;
        budget = b1;
        answer = answered s;
      }
      | inl e ↦ elim (not (is_retryable p e) || n == p.max_attempts) [
        | true ↦ record {
          calls = ctx1 ∷ [];
          delays = ds;
          retries = k;
          budget = b1;
          answer = failed e;
        }
        | false ↦
            let rest = attempts p extend left (suc n) ctx1 b1 (some e) in
            record rest {
              calls = ctx1 ∷ rest.calls;
              delays = ds ++ rest.delays;
              retries = k + rest.retries;
            }
      ]
    ]
  ]

  unfoldable pub direct : Context → Budget F → E ⊎ S → Outcome F E S
  direct ctx b (inl e) = record {
    calls = ctx ∷ [];
    delays = [];
    retries = 0;
    budget = b;
    answer = failed e;
  }
  direct ctx b (inr s) = record {
    calls = ctx ∷ [];
    delays = [];
    retries = 0;
    budget = b;
    answer = answered s;
  }

  unfoldable pub intercept : Policy F → (ℕ → Context → Context) → Context → Budget F → Outcome F E S
  intercept p extend ctx b =
      let o = attempts p extend (suc p.max_attempts) 0 ctx (register_request b) none in
      if p.enabled
      then record o { budget = release_retries o.retries o.budget }
      else direct ctx b (w.respond 0 ctx)

  unfoldable pub unary_client_interceptor : Policy F → Context → Budget F → Outcome F E S
  unary_client_interceptor p ctx b = intercept p (renew p) ctx b

  unfoldable pub stream_client_interceptor : Policy F → Context → Budget F → Outcome F E S
  stream_client_interceptor p ctx b = intercept p (λ n c. c) ctx b
