-- ===== src/Isolation/Isolator.antt =====
-- internal/security/isolation.go, ServiceIsolator and its decorators. The rate limiter and the circuit
-- breaker of the decorators are any functions on a state that they share. A pointer to an isolator is
-- a number, and the memory of the isolators an argument of the calls: the decorator of segregation
-- keeps a pointer of its own, which is not nil.
use eidola.Common.{
  ℕ, String, ◌⊎◌, inl, inr, Bool, not, ◌||◌, Option, none, some, List, [], ◌∷◌, ◌++◌, str_eq,
  if◌then◌else◌,
}
use Prim.Native.String.{◌++◌ as ◌++ₛ◌}
use eidola.Common.Dict.{Dict, Entry, get, assign, delete}
use eidola.Isolation.Access.{
  ServiceIdentity, key_of, DefaultAccessControl, new_default_access_control, allow_call, has_prefix,
}

pub data Error : Type 0 where
  err_service_not_allowed err_rate_limit_exceeded : Error
  err_service_unavailable err_invalid_segregation_key : Error

pub data ServiceDecorator : Type 0 where
  rate_limit circuit_breaker : ServiceDecorator
  segregation : ℕ → ServiceDecorator

-- The values of the context that the decorators read and write.
pub record Context : Type 0 where
  pub segregation_key : Option String
  pub circuit_breaker_key : Option String

pub record ServiceIsolator (E : Type 0) : Type 0 where
  pub access_control : DefaultAccessControl E
  pub decorators : List ServiceDecorator
  pub services : Dict ServiceIdentity
  pub segregation_keys : Dict String

-- The isolators by their pointers.
abbrev pub Isolators : Type 0 → Type 0
Isolators E = ℕ → ServiceIsolator E

-- RateLimiter and CircuitBreaker.
pub record Guards (S E : Type 0) : Type 0 where
  pub allow : S → String → S × Bool
  pub note : S → String → S
  pub allow_request : S → String → S × Bool
  pub record_success : S → String → S
  pub record_failure : S → String → E → S

-- strings.Contains
unfoldable pub contains : String → String → Bool
contains String.[] part = has_prefix String.[] part
contains (String.◌∷◌ c s) part = has_prefix (String.◌∷◌ c s) part || contains s part

-- The first entry of a range whose name contains the text.
unfoldable pub partly_named : String → List (Entry ServiceIdentity) → Option ServiceIdentity
unfolding contains
partly_named part [] = none
partly_named part (e ∷ es) = if contains e.key part then some e.value else partly_named part es

-- fmt.Sprintf("%s-%s", target.String(), method)
unfoldable pub call_key : ServiceIdentity → String → String
call_key target method = key_of target ++ₛ ("-" ++ₛ method)

-- What SegregationDecorator does with the group of the key.
unfoldable pub check_group : ServiceIdentity → Error ⊎ String → Option Error
check_group target (inl e) = some e
check_group target (inr target_group) = elim (get target.metadata "segregation_group") [
  | none ↦ none
  | some target_meta ↦
      if str_eq target_meta target_group then none else some err_service_not_allowed
]

module _ {E : Type 0} where
  unfoldable pub new_service_isolator :
      Option (DefaultAccessControl E) → List ServiceDecorator → ServiceIsolator E
  new_service_isolator ac decorators = record {
    access_control = elim ac [ none ↦ new_default_access_control | some a ↦ a ];
    decorators = decorators;
    services = [];
    segregation_keys = [];
  }

  unfoldable pub register_service : ServiceIsolator E → ServiceIdentity → ServiceIsolator E
  register_service si service = record si { services = assign si.services (key_of service) service }

  unfoldable pub deregister_service : ServiceIsolator E → ServiceIdentity → ServiceIsolator E
  deregister_service si service = record si { services = delete si.services (key_of service) }

  -- With the order in which the loop meets the services.
  unfoldable pub get_service :
      ServiceIsolator E → List (Entry ServiceIdentity) → String → Option ServiceIdentity
  get_service si order name = elim (get si.services name) [
    | some service ↦ some service
    | none ↦ partly_named name order
  ]

  unfoldable pub register_segregation_key : ServiceIsolator E → String → String → ServiceIsolator E
  register_segregation_key si key group = record si {
    segregation_keys = assign si.segregation_keys key group;
  }

  unfoldable pub remove_segregation_key : ServiceIsolator E → String → ServiceIsolator E
  remove_segregation_key si key = record si { segregation_keys = delete si.segregation_keys key }

  unfoldable pub get_segregation_group : ServiceIsolator E → String → Error ⊎ String
  get_segregation_group si key = elim (get si.segregation_keys key) [
    | none ↦ inl err_invalid_segregation_key
    | some group ↦ inr group
  ]

  unfoldable pub add_decorator : ServiceIsolator E → ServiceDecorator → ServiceIsolator E
  add_decorator si decorator = record si { decorators = si.decorators ++ decorator ∷ [] }

  -- Decorate of SegregationDecorator, whose isolator is `isolator`.
  unfoldable pub segregate : ServiceIsolator E → Context → ServiceIdentity → Option Error
  segregate isolator ctx target = elim ctx.segregation_key [
    | none ↦ none
    | some key ↦ check_group target (get_segregation_group isolator key)
  ]

module _ {S E : Type 0} (guards : Guards S E) where
  -- What Decorate leaves of the state, the context that it returns, and its error: of
  -- RateLimitDecorator, of CircuitBreakerDecorator, and of any decorator.
  unfoldable pub limit_rate : S → Context → ServiceIdentity → String → S × Context × Option Error
  limit_rate s ctx target method =
      let r = guards.allow s (call_key target method) in
      if r.1
      then (guards.note r.0 (call_key target method), ctx, none)
      else (r.0, ctx, some err_rate_limit_exceeded)

  unfoldable pub break_circuit : S → Context → ServiceIdentity → String → S × Context × Option Error
  break_circuit s ctx target method =
      let r = guards.allow_request s (call_key target method) in
      if r.1
      then (r.0, record ctx { circuit_breaker_key = some (call_key target method) }, none)
      else (r.0, ctx, some err_service_unavailable)

  unfoldable pub decorate :
      Isolators E
      → ServiceDecorator
      → S
      → Context
      → ServiceIdentity
      → String
      → S × Context × Option Error
  unfolding limit_rate break_circuit
  decorate mem rate_limit s ctx target method = limit_rate s ctx target method
  decorate mem circuit_breaker s ctx target method = break_circuit s ctx target method
  decorate mem (segregation isolator) s ctx target method =
      (s, ctx, segregate (mem isolator) ctx target)

  unfoldable pub decorate_all :
      Isolators E
      → List ServiceDecorator
      → S
      → Context
      → ServiceIdentity
      → String
      → S × Context × Option Error
  decorate_all mem [] s ctx target method = (s, ctx, none)
  decorate_all mem (d ∷ ds) s ctx target method =
      let r = decorate mem d s ctx target method in
      let rest = decorate_all mem ds r.0 r.1 target method in elim r.2 [ none ↦ rest | some e ↦ r ]

  -- PrepareCall of the isolator at a pointer.
  unfoldable pub prepare_call :
      Isolators E
      → ℕ
      → S
      → Context
      → ServiceIdentity
      → ServiceIdentity
      → String
      → S × Context × Option Error
  prepare_call mem si s ctx from to method =
      if not (allow_call (mem si).access_control from to method)
      then (s, ctx, some err_service_not_allowed)
      else decorate_all mem (mem si).decorators s ctx to method

  -- CircuitBreakerDecorator, RecordResult.
  unfoldable pub record_result : S → Context → Option E → S
  record_result s ctx err = elim ctx.circuit_breaker_key [
    | none ↦ s
    | some key ↦ elim err [
      | none ↦ guards.record_success s key
      | some e ↦ guards.record_failure s key e
    ]
  ]
