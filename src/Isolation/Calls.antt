-- ===== src/Isolation/Calls.antt =====
-- internal/security/isolation.go, PrepareCall: the calls that it lets through.
use eidola.Common.{
  String, ◌≡◌, refl, ap, inl, inr, Bool, true, false, Option, none, some, List, [], ◌∷◌, arith,
  str_eq, Bool-cases, Option-cases, ℕ, All, sym, ◌∙◌,
}
use eidola.Common.Dict.{get}
use eidola.Isolation.Access.{ServiceIdentity, allow_call}
use eidola.Isolation.Isolator.{
  ServiceDecorator, rate_limit, segregation, circuit_breaker, Context, ServiceIsolator, Guards,
  Isolators, limit_rate, break_circuit, get_segregation_group, check_group, segregate, decorate,
  decorate_all, prepare_call,
}

-- The key of the context, if it has one, is registered for the group of the target, if it has one.
abbrev pub fits : Option String → Option String → Bool
fits none meta = false
fits (some group) none = true
fits (some group) (some meta) = str_eq meta group

module _ {E : Type 0} where
  -- The key of the context, if there is one, fits the target.
  abbrev pub separate : ServiceIsolator E → Context → ServiceIdentity → Bool
  separate si ctx target = elim ctx.segregation_key [
    | none ↦ true
    | some key ↦ fits (get si.segregation_keys key) (get target.metadata "segregation_group")
  ]

  -- Of a decorator that segregates, the key fits the target for the isolator of the decorator.
  abbrev pub separates : Isolators E → Context → ServiceIdentity → ServiceDecorator → Bool
  separates mem ctx target (segregation isolator) = separate (mem isolator) ctx target
  separates mem ctx target d = true

  segregate-none :
      (si : ServiceIsolator E) (ctx : Context) (target : ServiceIdentity)
      → segregate si ctx target ≡ none
      → separate si ctx target ≡ true
  unfolding segregate check_group get_segregation_group
  segregate-none si ctx target h = ground arith

  separates-same :
      (mem : Isolators E) (ctx after : Context) (target : ServiceIdentity) (d : ServiceDecorator)
      → after.segregation_key ≡ ctx.segregation_key
      → separates mem after target d ≡ separates mem ctx target d
  separates-same mem ctx after target rate_limit h = refl
  separates-same mem ctx after target circuit_breaker h = refl
  separates-same mem ctx after target (segregation isolator) h =
      ap
        (λ k. elim k [
          | none ↦ true
          | some key ↦
              fits (get (mem isolator).segregation_keys key)
                (get target.metadata "segregation_group")
        ])
        h

  All-same :
      (mem : Isolators E) (ctx after : Context) (target : ServiceIdentity)
      (ds : List ServiceDecorator)
      → after.segregation_key ≡ ctx.segregation_key
      → All (λ d. separates mem after target d ≡ true) ds
      → All (λ d. separates mem ctx target d ≡ true) ds
  All-same mem ctx after target [] h all = tt
  All-same mem ctx after target (d ∷ ds) h all = (
    sym (separates-same mem ctx after target d h) ∙ all.0,
    All-same mem ctx after target ds h all.1,
  )

module _ {S E : Type 0} (guards : Guards S E) where
  decorate-key :
      (mem : Isolators E) (d : ServiceDecorator) (s : S) (ctx : Context) (target : ServiceIdentity)
      (method : String)
      → (decorate guards mem d s ctx target method).1.segregation_key ≡ ctx.segregation_key
  unfolding decorate limit_rate break_circuit
  decorate-key mem rate_limit s ctx target method = ground arith
  decorate-key mem circuit_breaker s ctx target method = ground arith
  decorate-key mem (segregation isolator) s ctx target method = refl

  decorate-separates :
      (mem : Isolators E) (d : ServiceDecorator) (s : S) (ctx : Context) (target : ServiceIdentity)
      (method : String)
      → (decorate guards mem d s ctx target method).2 ≡ none
      → separates mem ctx target d ≡ true
  unfolding decorate
  decorate-separates mem rate_limit s ctx target method h = refl
  decorate-separates mem circuit_breaker s ctx target method h = refl
  decorate-separates mem (segregation isolator) s ctx target method h =
      segregate-none (mem isolator) ctx target h

  first_and_rest :
      (mem : Isolators E) (d : ServiceDecorator) (ds : List ServiceDecorator) (s : S)
      (ctx : Context) (target : ServiceIdentity) (method : String)
      → (decorate_all guards mem (d ∷ ds) s ctx target method).2 ≡ none
      → ((decorate guards mem d s ctx target method).2 ≡ none)
        × ((decorate_all guards mem ds
              (decorate guards mem d s ctx target method).0
              (decorate guards mem d s ctx target method).1
              target
              method).2
            ≡ none)
  unfolding decorate_all
  first_and_rest mem d ds s ctx target method h =
      elim (Option-cases (decorate guards mem d s ctx target method).2) [
        | inl passes ↦ (passes, ground arith)
        | inr (e, fails) ↦ absurd (ground arith)
      ]

  decorate_all-separates :
      (mem : Isolators E) (ds : List ServiceDecorator) (s : S) (ctx : Context)
      (target : ServiceIdentity) (method : String)
      → (decorate_all guards mem ds s ctx target method).2 ≡ none
      → All (λ d. separates mem ctx target d ≡ true) ds
  decorate_all-separates mem [] s ctx target method h = tt
  decorate_all-separates mem (d ∷ ds) s ctx target method h =
      let r = decorate guards mem d s ctx target method in
      let parts = first_and_rest mem d ds s ctx target method h in
      (
        decorate-separates mem d s ctx target method parts.0,
        All-same mem ctx r.1 target ds (decorate-key mem d s ctx target method)
            (decorate_all-separates mem ds r.0 r.1 target method parts.1),
      )

  -- PrepareCall lets a call through only if the access control allows it and, for every decorator
  -- that segregates, the key of the context, if there is one, is registered in the isolator of that
  -- decorator, for the group of the target, if it has one: whatever the limiter, the breaker and the
  -- order of the decorators.
  pub prepare_call-separates :
      (mem : Isolators E) (si : ℕ) (s : S) (ctx : Context) (from to : ServiceIdentity)
      (method : String)
      → (prepare_call guards mem si s ctx from to method).2 ≡ none
      → (allow_call (mem si).access_control from to method ≡ true)
        × All (λ d. separates mem ctx to d ≡ true) (mem si).decorators
  unfolding prepare_call
  prepare_call-separates mem si s ctx from to method h =
      elim (Bool-cases (allow_call (mem si).access_control from to method)) [
        | inl allowed ↦
            (allowed, decorate_all-separates mem (mem si).decorators s ctx to method (ground arith))
        | inr denied ↦ absurd (ground arith)
      ]
