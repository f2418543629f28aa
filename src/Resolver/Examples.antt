-- ===== src/Resolver/Examples.antt =====
-- resolver.go: tests, and the theorems at a resolver of two services.
use eidola.Common.{
  ℕ, zero, suc, ◌+◌, ◌≤◌, ◌≡◌, refl, ◌⊎◌, inl, inr, false, none, some, List, [], ◌∷◌, map,
}
use eidola.Common.Dict.{get}
use eidola.Resolver.Defs.{
  ServiceInstance, GrpcResolver, World, lists, fails, is_valid, address_of, has_service_changed,
  record_services, fetch, resolve, resolve_fresh, resolve_fetched, resolve_listed, push, counted,
}
use eidola.Resolver.Builder.{
  ResolverBuilder, new_resolver_builder, resolver_with_retry, resolver_with_fallback, new_resolver,
  apply_options,
}
use eidola.Resolver.Changes.{has_service_changed-record}
use eidola.Resolver.Cache.{resolve-asks}

abbrev first_service : ServiceInstance
first_service = record { name = "users"; address = "10.0.0.1:80"; weight = 2; group = "a" }

abbrev second_service : ServiceInstance
second_service = record first_service { address = "10.0.0.2:80" }

abbrev both : List ServiceInstance
both = first_service ∷ second_service ∷ []

abbrev builder : ResolverBuilder
builder =
    new_resolver_builder
      (resolver_with_retry 2 100 ∷ resolver_with_fallback "dns" ("127.0.0.1:80" ∷ []) ∷ [])

abbrev fresh_resolver : GrpcResolver
fresh_resolver = record {
  endpoint = "users";
  retry_attempts = 2;
  cache_ttl = 300;
  fallback_addrs = "127.0.0.1:80" ∷ [];
  last_services = [];
  cache = record { services = []; timestamp = none };
}

-- The registry answers at the second attempt.
abbrev answers : ℕ → ℕ ⊎ List ServiceInstance
answers zero = inl 4
answers (suc n) = inr both

abbrev serving : World ℕ
serving = record {
  now = 10;
  fetched_at = 20;
  list = answers;
  closed = λ n. false;
  update = λ addrs. none;
}

abbrev failing : World ℕ
failing = record serving { now = 400; list = λ n. inl (n + 4) }

builds : (new_resolver builder "users").fallback_addrs ≡ "127.0.0.1:80" ∷ []
unfolding new_resolver new_resolver_builder apply_options resolver_with_retry resolver_with_fallback
builds = refl

pushes : (resolve fresh_resolver serving).updates ≡ map address_of both ∷ []
unfolding resolve is_valid resolve_fresh resolve_fetched fetch counted resolve_listed
    has_service_changed push
pushes = refl

has_service_changed-record_example :
    has_service_changed (record_services fresh_resolver both) both ≡ false
has_service_changed-record_example = has_service_changed-record fresh_resolver both

resolve-asks_example : (resolve fresh_resolver serving).listings ≤ 3
unfolding is_valid
resolve-asks_example = resolve-asks fresh_resolver serving

fetches : fetch serving 2 3 0 ≡ lists both 2
unfolding fetch
fetches = refl

-- The services have been recorded, and the cache has expired.
abbrev known : GrpcResolver
known = record fresh_resolver {
  last_services =
      record { key = "10.0.0.1:80"; value = tt } ∷ record { key = "10.0.0.2:80"; value = tt } ∷ [];
  cache = record { services = both; timestamp = some 20 };
}

abbrev recovered : World ℕ
recovered = record serving { now = 500 }

outage_fetch : fetch failing 2 3 0 ≡ fails 6 3
unfolding fetch
outage_fetch = refl

fetch_again : fetch recovered 2 3 0 ≡ lists both 2
unfolding fetch
fetch_again = refl

unchanged : has_service_changed known both ≡ false
unfolding has_service_changed get
unchanged = refl
