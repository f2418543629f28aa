-- ===== src/Resolver/Defs.antt =====
-- resolver.go, grpcResolver. A call of resolve is a step; a World says what it meets: the registry,
-- the client connection, the clock and whether the resolver is closed while it waits.
use eidola.Common.{
  ℕ, zero, suc, ◌-◌, String, ◌⊎◌, inl, inr, Bool, true, false, not, ◌&&◌, ◌||◌, Option, none, some,
  List, [], ◌∷◌, ◌++◌, map, ltb, ◌==◌, if◌then◌else◌, length, any,
}
use eidola.Common.Dict.{Dict, get, assign}

-- registry/types.go
pub record ServiceInstance : Type 0 where
  pub name : String
  pub address : String
  pub weight : ℕ
  pub group : String

-- resolver.Address, with the attributes that the resolver sets.
pub record Address : Type 0 where
  pub addr : String
  pub weight : ℕ
  pub group : String

-- `timestamp` is none where the source has the zero time.
pub record ResolverCache : Type 0 where
  pub services : List ServiceInstance
  pub timestamp : Option ℕ

-- The fields of grpcResolver that resolve reads or writes.
pub record GrpcResolver : Type 0 where
  pub endpoint : String
  pub retry_attempts : ℕ
  pub cache_ttl : ℕ
  pub fallback_addrs : List String
  pub last_services : Dict (Unit {0})
  pub cache : ResolverCache

-- An error of the registry or of the client connection, or one of the package's own.
pub data Error (E : Type 0) : Type 0 where
  external : E → Error E
  no_service : String → Error E
  retry_failed : String → Error E
  resolver_closed : Error E

-- `now` is the time at which resolve begins and `fetched_at` that at which it fills the cache.
-- `list n` is the answer of ListServices at attempt n, `closed n` says that closeCh ends the wait
-- before it, and `update` is the answer of UpdateState.
pub record World (E : Type 0) : Type 0 where
  pub now : ℕ
  pub fetched_at : ℕ
  pub list : ℕ → E ⊎ List ServiceInstance
  pub closed : ℕ → Bool
  pub update : List Address → Option E

-- What resolve leaves and returns, the states it pushes, the errors it reports, and how often it
-- asks the registry.
pub record Outcome (E : Type 0) : Type 0 where
  pub resolver : GrpcResolver
  pub error : Option (Error E)
  pub updates : List (List Address)
  pub reports : List (Error E)
  pub listings : ℕ

abbrev pub is_empty {ℓ} : {A : Type ℓ} → List A → Bool
is_empty [] = true
is_empty (x ∷ xs) = false

abbrev pub is_some {ℓ} : {A : Type ℓ} → Option A → Bool
is_some none = false
is_some (some a) = true

-- resolverCache.isValid
unfoldable pub is_valid : ResolverCache → ℕ → ℕ → Bool
is_valid c ttl now = elim c.timestamp [
  | none ↦ false
  | some t ↦ not (is_empty c.services) && ltb (now - t) ttl
]

-- resolverCache.get
unfoldable pub get_cached : ResolverCache → Option (List ServiceInstance)
get_cached c = if is_empty c.services || not (is_some c.timestamp) then none else some c.services

unfoldable pub address_of : ServiceInstance → Address
address_of s = record { addr = s.address; weight = s.weight; group = s.group }

unfoldable pub fallback_address : String → Address
fallback_address a = record { addr = a; weight = 1; group = "fallback" }

unfoldable pub has_service_changed : GrpcResolver → List ServiceInstance → Bool
has_service_changed r services =
    not (length services == length r.last_services)
    || any (λ s. not (is_some (get r.last_services s.address))) services

unfoldable pub add_services : Dict (Unit {0}) → List ServiceInstance → Dict (Unit {0})
add_services m [] = m
add_services m (s ∷ ss) = add_services (assign m s.address tt) ss

unfoldable pub record_services : GrpcResolver → List ServiceInstance → GrpcResolver
record_services r services = record r { last_services = add_services [] services }

-- How the loop over the attempts ends, and after how many calls of ListServices.
pub data Fetched (E : Type 0) : Type 0 where
  lists : List ServiceInstance → ℕ → Fetched E
  fails : E → ℕ → Fetched E
  closes : ℕ → Fetched E

module _ {E : Type 0} where
  abbrev pub quiet : GrpcResolver → ℕ → Outcome E
  quiet r n = record { resolver = r; error = none; updates = []; reports = []; listings = n }

  -- A state for these services is pushed, and they are recorded if the client takes it.
  unfoldable pub push : GrpcResolver → World E → List ServiceInstance → Outcome E
  push r w services = elim (w.update (map address_of services)) [
    | some e ↦ record {
      resolver = r;
      error = some (external e);
      updates = map address_of services ∷ [];
      reports = external e ∷ [];
      listings = 0;
    }
    | none ↦ record (quiet (record_services r services) 0) {
      updates = map address_of services ∷ [];
    }
  ]

  unfoldable pub resolve_cached : GrpcResolver → World E → List ServiceInstance → Outcome E
  resolve_cached r w services =
      if not (has_service_changed r services) then quiet r 0 else push r w services

  abbrev pub as_error : Option E → Option (Error E)
  as_error none = none
  as_error (some e) = some (external e)

  -- The fallback addresses are pushed, after some reports.
  unfoldable pub fall_back : GrpcResolver → World E → List (Error E) → Outcome E
  fall_back r w reports = record {
    resolver = r;
    error = as_error (w.update (map fallback_address r.fallback_addrs));
    updates = map fallback_address r.fallback_addrs ∷ [];
    reports = reports;
    listings = 0;
  }

  -- The loop from attempt n, of which `left` remain; err is nil where it does not run.
  unfoldable pub fetch : World E → ℕ → ℕ → ℕ → Fetched E
  fetch w retry_attempts zero n = lists [] n
  fetch w retry_attempts (suc left) n =
      let rest = fetch w retry_attempts left (suc n) in
      if ltb 0 n && w.closed n then closes n else elim (w.list n) [
        | inr services ↦ lists services (suc n)
        | inl e ↦ if n == retry_attempts then fails e (suc n) else rest
      ]

  unfoldable pub counted : ℕ → Outcome E → Outcome E
  counted n o = record o { listings = n }

  -- What follows a list of services from the registry.
  unfoldable pub resolve_listed : GrpcResolver → World E → List ServiceInstance → Outcome E
  resolve_listed r w services =
      let r1 = record r { cache = record { services = services; timestamp = some w.fetched_at } } in
      if not (has_service_changed r1 services) && not (is_empty services)
      then quiet r1 0
      else if is_empty services
      then if not (is_empty r1.fallback_addrs)
        then fall_back r1 w (no_service r1.endpoint ∷ [])
        else record (push r1 w services) {
          reports = no_service r1.endpoint ∷ (push r1 w services).reports;
        }
      else push r1 w services

  unfoldable pub resolve_fetched : GrpcResolver → World E → Fetched E → Outcome E
  resolve_fetched r w (lists services n) = counted n (resolve_listed r w services)
  resolve_fetched r w (fails e n) =
      if not (is_empty r.fallback_addrs)
      then counted n (fall_back r w (external e ∷ []))
      else record {
        resolver = r;
        error = some (external e);
        updates = [];
        reports = external e ∷ [];
        listings = n;
      }
  resolve_fetched r w (closes n) = record (quiet r n) { error = some resolver_closed }

  unfoldable pub resolve_fresh : GrpcResolver → World E → Outcome E
  resolve_fresh r w = resolve_fetched r w (fetch w r.retry_attempts (suc r.retry_attempts) 0)

  unfoldable pub resolve_as : GrpcResolver → World E → Option (List ServiceInstance) → Outcome E
  resolve_as r w none = resolve_fresh r w
  resolve_as r w (some services) = resolve_cached r w services

  unfoldable pub resolve : GrpcResolver → World E → Outcome E
  resolve r w =
      if is_valid r.cache r.cache_ttl w.now
      then resolve_as r w (get_cached r.cache)
      else resolve_fresh r w

  -- ResolveNow and the tick of periodicRefresh ignore the error of resolve.
  unfoldable pub resolve_now : GrpcResolver → World E → GrpcResolver
  resolve_now r w = (resolve r w).resolver

  -- A notification of the subscription: the error of resolve is reported.
  unfoldable pub on_event : GrpcResolver → World E → Outcome E
  on_event r w =
      let o = resolve r w in
      elim o.error [ none ↦ o | some e ↦ record o { reports = o.reports ++ e ∷ [] } ]
