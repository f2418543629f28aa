-- ===== src/Resolver/Builder.antt =====
-- resolver.go, ResolverBuilder: the defaults, the options, Build and the subscription.
use eidola.Common.{
  ℕ, zero, suc, String, ◌⊎◌, inl, inr, not, Option, none, some, List, [], ◌∷◌, ◌++◌, map,
  if◌then◌else◌,
}
use eidola.Resolver.Defs.{
  GrpcResolver, Address, Error, World, Outcome, is_empty, fallback_address, resolve, retry_failed,
}

pub record ResolverBuilder : Type 0 where
  pub timeout : ℕ
  pub refresh_period : ℕ
  pub retry_attempts : ℕ
  pub retry_delay : ℕ
  pub cache_ttl : ℕ
  pub fallback_resolver : String
  pub fallback_addrs : List String

-- The builder without options.
unfoldable pub default_builder : ResolverBuilder
default_builder = record {
  timeout = 3000000000;
  refresh_period = 30000000000;
  retry_attempts = 3;
  retry_delay = 500000000;
  cache_ttl = 300000000000;
  fallback_resolver = "";
  fallback_addrs = [];
}

unfoldable pub apply_options :
    List (ResolverBuilder → ResolverBuilder) → ResolverBuilder → ResolverBuilder
apply_options [] b = b
apply_options (opt ∷ opts) b = apply_options opts (opt b)

unfoldable pub new_resolver_builder : List (ResolverBuilder → ResolverBuilder) → ResolverBuilder
new_resolver_builder opts = apply_options opts default_builder

unfoldable pub resolver_with_timeout : ℕ → ResolverBuilder → ResolverBuilder
resolver_with_timeout timeout b = record b { timeout = timeout }

unfoldable pub resolver_with_refresh_period : ℕ → ResolverBuilder → ResolverBuilder
resolver_with_refresh_period period b = record b { refresh_period = period }

unfoldable pub resolver_with_retry : ℕ → ℕ → ResolverBuilder → ResolverBuilder
resolver_with_retry attempts delay b = record b { retry_attempts = attempts; retry_delay = delay }

unfoldable pub resolver_with_cache : ℕ → ResolverBuilder → ResolverBuilder
resolver_with_cache ttl b = record b { cache_ttl = ttl }

unfoldable pub resolver_with_fallback : String → List String → ResolverBuilder → ResolverBuilder
resolver_with_fallback resolver_type addrs b = record b {
  fallback_resolver = resolver_type;
  fallback_addrs = addrs;
}

unfoldable pub new_resolver : ResolverBuilder → String → GrpcResolver
new_resolver b endpoint = record {
  endpoint = endpoint;
  retry_attempts = b.retry_attempts;
  cache_ttl = b.cache_ttl;
  fallback_addrs = b.fallback_addrs;
  last_services = [];
  cache = record { services = []; timestamp = none };
}

-- How retrySubscribe ends: with a subscription, by closeCh, or with a report.
pub data Subscribed (E : Type 0) : Type 0 where
  subscribed closed_first : Subscribed E
  reports : Error E → Subscribed E

module _ {E : Type 0} where
  -- Build up to the start of its goroutines: the resolver, or the error, with the states pushed.
  unfoldable pub build_as :
      GrpcResolver → Outcome E → (Error E ⊎ GrpcResolver) × List (List Address)
  build_as r o = elim o.error [
    | none ↦ (inr o.resolver, o.updates)
    | some e ↦
        if not (is_empty r.fallback_addrs)
        then (inr o.resolver, o.updates ++ map fallback_address r.fallback_addrs ∷ [])
        else (inl e, o.updates)
  ]

  unfoldable pub build :
      ResolverBuilder → String → World E → (Error E ⊎ GrpcResolver) × List (List Address)
  build b endpoint w = build_as (new_resolver b endpoint) (resolve (new_resolver b endpoint) w)

  -- `subscribe n` is the answer of Subscribe at round n, none for closeCh in place of the timer.
  unfoldable pub retry_subscribe : String → (ℕ → Option (Option E)) → ℕ → ℕ → Subscribed E
  retry_subscribe service subscribe zero n = reports (retry_failed service)
  retry_subscribe service subscribe (suc left) n =
      let rest = retry_subscribe service subscribe left (suc n) in
      elim (subscribe n) [ none ↦ closed_first | some none ↦ subscribed | some (some e) ↦ rest ]
