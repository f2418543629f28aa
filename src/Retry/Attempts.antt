-- ===== src/Retry/Attempts.antt =====
-- internal/retry/retry.go, the loop of RetryInterceptor over its attempts, from any attempt on.
use eidola.Common.{
  ℕ, zero, suc, ◌+◌, ◌-◌, ◌≤◌, ◌<◌, ◌≡◌, refl, ◌≢◌, inl, inr, Bool, true, false, Option, none, some,
  List, [], ◌∷◌, arith, length, All, subst,
}
use eidola.Common.Int.{ℤ, pos, increment, below, above, decrement-increment}
use eidola.Retry.Budget.{Floats, Budget, can_retry, register_retry, release_retry, release_retries}
use eidola.Retry.Interceptor.{
  Policy, Context, elapsed, answered, returns_nil, World, is_retryable, calculate_delay, as_error,
  resume, start, attempts,
}

-- The budget after n registered retries.
abbrev pub registered : {F : Type 0} → ℕ → Budget F → Budget F
registered zero b = b
registered (suc n) b = registered n (register_retry b)

pub release-registered :
    {F : Type 0} (n : ℕ) (b : Budget F)
    → release_retries n (registered n b) ≡ record b { retried_requests = b.retried_requests + n }
unfolding release_retries release_retry register_retry
release-registered zero b = ground arith
release-registered (suc n) b =
    ground (arith, release-registered n (register_retry b), decrement-increment b.current_retries)

-- The last of a list, or a default.
abbrev pub last_of : Context → List Context → Context
last_of c [] = c
last_of c (d ∷ cs) = last_of d cs

module _ {F E S : Type 0} (floats : Floats F) (w : World F E S) (p : Policy F) where
  -- The invocation failed with an error that is retryable.
  abbrev pub fails_retryably : ℕ → Context → Bool
  fails_retryably n ctx = elim (w.respond n ctx) [
    | inl e ↦ is_retryable floats w p e
    | inr s ↦ false
  ]

  -- All invocations but the last failed with a retryable error, the first of them number n.
  abbrev pub Retried : ℕ → List Context → Type 0
  Retried n [] = Unit
  Retried n (c ∷ []) = Unit
  Retried n (c ∷ d ∷ cs) = (fails_retryably n c ≡ true) × Retried (suc n) (d ∷ cs)

module _ {F E S : Type 0} (floats : Floats F) (w : World F E S) (p : Policy F)
    (extend : ℕ → Context → Context) where
  pub attempts-budget :
      (left n : ℕ) (ctx : Context) (b : Budget F) (last : Option E)
      → (attempts floats w p extend left n ctx b last).budget
        ≡ registered (attempts floats w p extend left n ctx b last).retries b
  unfolding attempts start resume
  attempts-budget zero n ctx b last = refl
  attempts-budget (suc left) zero ctx b last = grind (arith, attempts-budget left 1 ctx b)
  attempts-budget (suc left) (suc n) ctx b last =
      grind (arith, attempts-budget left (suc (suc n)) (extend (suc n) ctx) (register_retry b))

  pub attempts-calls :
      (left n : ℕ) (ctx : Context) (b : Budget F) (last : Option E)
      → (length (attempts floats w p extend left n ctx b last).calls ≤ left)
        × (1 ≤ n
            → length (attempts floats w p extend left n ctx b last).calls
              ≡ (attempts floats w p extend left n ctx b last).retries)
  unfolding attempts start resume
  attempts-calls zero n ctx b last = ground arith
  attempts-calls (suc left) zero ctx b last = grind (arith, attempts-calls left 1 ctx b)
  attempts-calls (suc left) (suc n) ctx b last =
      grind (arith, attempts-calls left (suc (suc n)) (extend (suc n) ctx) (register_retry b))

  pub attempts-first :
      (left : ℕ) (ctx : Context) (b : Budget F)
      → length (attempts floats w p extend (suc left) 0 ctx b none).calls
        ≡ suc (attempts floats w p extend (suc left) 0 ctx b none).retries
  unfolding attempts start resume
  attempts-first left ctx b = grind (arith, attempts-calls left 1 ctx b)

  delay-bounded : (n : ℕ) → above (calculate_delay floats w p n) p.max_delay ≡ false
  unfolding calculate_delay above
  delay-bounded n = ground arith

  abbrev pub Bounded : List ℤ → Type 0
  Bounded ds = All (λ d. above d p.max_delay ≡ false) ds

  pub attempts-delays :
      (left n : ℕ) (ctx : Context) (b : Budget F) (last : Option E)
      → Bounded (attempts floats w p extend left n ctx b last).delays
  unfolding attempts start resume
  attempts-delays zero n ctx b last = ground arith
  attempts-delays (suc left) zero ctx b last = grind (arith, attempts-delays left 1 ctx b)
  attempts-delays (suc left) (suc n) ctx b last = grind (
    arith,
    delay-bounded (suc n),
    attempts-delays left (suc (suc n)) (extend (suc n) ctx) (register_retry b),
  )

  attempts-answer_later :
      (left n : ℕ) (ctx : Context) (b : Budget F) (e : E)
      → (attempts floats w p extend left n ctx b (some e)).answer ≢ returns_nil
  unfolding attempts start resume as_error
  attempts-answer_later zero n ctx b e = ground arith
  attempts-answer_later (suc left) zero ctx b e = grind (arith, attempts-answer_later left 1 ctx b)
  attempts-answer_later (suc left) (suc n) ctx b e =
      grind
        (arith, attempts-answer_later left (suc (suc n)) (extend (suc n) ctx) (register_retry b))

  pub attempts-success :
      (left n : ℕ) (ctx : Context) (b : Budget F) (last : Option E) (s : S)
      → (attempts floats w p extend left n ctx b last).answer ≡ answered s
      → (1 ≤ length (attempts floats w p extend left n ctx b last).calls)
        × (w.respond
              (n + length (attempts floats w p extend left n ctx b last).calls - 1)
              (last_of ctx (attempts floats w p extend left n ctx b last).calls)
            ≡ inr s)
  unfolding attempts start resume as_error
  attempts-success zero n ctx b last s h = ground arith
  attempts-success (suc left) zero ctx b last s h = grind (arith, attempts-success left 1 ctx b)
  attempts-success (suc left) (suc n) ctx b last s h =
      grind (arith, attempts-success left (suc (suc n)) (extend (suc n) ctx) (register_retry b))

  pub attempts-Retried :
      (left n : ℕ) (ctx : Context) (b : Budget F) (last : Option E)
      → Retried floats w p n (attempts floats w p extend left n ctx b last).calls
  unfolding attempts start resume as_error
  attempts-Retried zero n ctx b last = ground arith
  attempts-Retried (suc left) zero ctx b last = grind (arith, attempts-Retried left 1 ctx b)
  attempts-Retried (suc left) (suc n) ctx b last =
      grind (arith, attempts-Retried left (suc (suc n)) (extend (suc n) ctx) (register_retry b))

  -- The ratio is not reached while these calls of CanRetry follow, j retries from now.
  abbrev pub Spare : Budget F → ℕ → ℕ → Type 0
  Spare b n k =
      (j : ℕ)
      → j < k
      → j + n ≤ k
      → floats.reached (b.retried_requests + j) b.total_requests b.max_retry_ratio ≡ false

  ratio_now :
      (b : Budget F) (n k : ℕ)
      → Spare b (suc n) k
      → suc n ≤ k
      → floats.reached b.retried_requests b.total_requests b.max_retry_ratio ≡ false
  ratio_now b n k r le =
      let same : b.retried_requests + 0 ≡ b.retried_requests = omega arith in
      subst (λ x. floats.reached x b.total_requests b.max_retry_ratio ≡ false) same
        (r 0 (omega arith) (omega arith))

  ratio_later :
      (b : Budget F) (n k : ℕ) → Spare b (suc n) k → Spare (register_retry b) (suc (suc n)) k
  unfolding register_retry
  ratio_later b n k r j lt le =
      let same : b.retried_requests + suc j ≡ b.retried_requests + 1 + j = omega arith in
      subst (λ x. floats.reached x b.total_requests b.max_retry_ratio ≡ false) same
        (r (suc j) (omega arith) (omega arith))

  pub attempts-persists :
      (left n k m : ℕ) (ctx : Context) (b : Budget F) (last : Option E) (s : S)
      → ((i : ℕ) (c : Context) → i < k → fails_retryably floats w p i c ≡ true)
      → ((c : Context) → w.respond k c ≡ inr s)
      → ((i : ℕ) (d : ℤ) → w.wait i d ≡ elapsed)
      → Spare b n k
      → n + left ≡ suc p.max_attempts
      → n ≤ k
      → k ≤ p.max_attempts
      → b.current_retries ≡ pos m
      → m + (k - n) < b.max_concurrent_retries
      → (attempts floats w p extend left n ctx b last).answer ≡ answered s
  unfolding attempts start resume as_error can_retry below increment register_retry
  attempts-persists zero n k m ctx b last s f g wt r e nk kp c mx = ground arith
  attempts-persists (suc left) zero k m ctx b last s f g wt r e nk kp c mx = grind (
    arith,
    f 0 ctx,
    g ctx,
    λ (err : E).
        attempts-persists left 1 k m ctx b (some err) s f g wt (λ j lt le. r j lt (omega arith)),
  )
  attempts-persists (suc left) (suc n) k m ctx b last s f g wt r e nk kp c mx = grind (
    arith,
    f (suc n) (extend (suc n) ctx),
    g (extend (suc n) ctx),
    wt (suc n) (calculate_delay floats w p (suc n)),
    ratio_now b n k r,
    λ (err : E).
        attempts-persists left (suc (suc n)) k (suc m) (extend (suc n) ctx) (register_retry b)
          (some err) s f g wt (ratio_later b n k r),
  )

  pub attempts-answer :
      (left : ℕ) (ctx : Context) (b : Budget F)
      → (attempts floats w p extend (suc left) 0 ctx b none).answer ≢ returns_nil
  unfolding attempts start resume as_error
  attempts-answer left ctx b = grind (arith, attempts-answer_later left 1 ctx b)
