-- ===== src/Resolver/Cache.antt =====
-- resolver.go, resolve: how often it asks the registry, and what the cache keeps it from.
use eidola.Common.{
  ℕ, zero, suc, ◌+◌, ◌-◌, ◌≤◌, ◌<◌, ◌≡◌, refl, sym, ap, subst, ◌∙◌, inl, inr, true, false, none,
  some, List, ◌∷◌, map, arith, if◌then◌else◌,
}
use native.Mathlib.Decide.{dec_lt}
use eidola.Resolver.Defs.{
  ServiceInstance, GrpcResolver, World, Outcome, Fetched, lists, fails, closes, is_valid,
  get_cached, address_of, has_service_changed, record_services, quiet, push, resolve_cached, fetch,
  resolve_listed, resolve_fetched, resolve_fresh, resolve_as, resolve, counted,
}
use eidola.Resolver.Changes.{distinct, has_service_changed-record}

module _ {E : Type 0} where
  abbrev asked : Fetched E → ℕ
  asked (lists ss n) = n
  asked (fails e n) = n
  asked (closes n) = n

  fetch-asked : (w : World E) (retry left n : ℕ) → asked (fetch w retry left n) ≤ n + left
  unfolding fetch
  fetch-asked w retry zero n = omega arith
  fetch-asked w retry (suc left) n = ground (arith, fetch-asked w retry left (suc n))

  listings-fetched :
      (r : GrpcResolver) (w : World E) (f : Fetched E) → (resolve_fetched r w f).listings ≡ asked f
  unfolding resolve_fetched counted
  listings-fetched r w (lists ss n) = refl
  listings-fetched r w (fails e n) = ground arith
  listings-fetched r w (closes n) = refl

  -- resolve asks the registry at most once more than retryAttempts, and not at all while its cache
  -- is valid.
  pub resolve-asks :
      (r : GrpcResolver) (w : World E)
      → (resolve r w).listings
        ≤ (if is_valid r.cache r.cache_ttl w.now then 0 else suc r.retry_attempts)
  unfolding resolve resolve_as resolve_fresh resolve_cached push is_valid get_cached
  resolve-asks r w = ground (
    arith,
    listings-fetched r w (fetch w r.retry_attempts (suc r.retry_attempts) 0),
    fetch-asked w r.retry_attempts (suc r.retry_attempts) 0,
  )

  -- The list of services, if the attempts before attempt k fail, and those are not all.
  fetch-lists :
      (w : World E) (retry left n k : ℕ) (ss : List ServiceInstance)
      → ((i : ℕ) → i < k → (e : E) × (w.list i ≡ inl e))
      → ((i : ℕ) → w.closed i ≡ false)
      → w.list k ≡ inr ss
      → n + left ≡ suc retry
      → n ≤ k
      → k ≤ retry
      → fetch w retry left n ≡ lists ss (suc k)
  unfolding fetch
  fetch-lists w retry zero n k ss f c g e nk kr = absurd (omega arith)
  fetch-lists w retry (suc left) n k ss f c g e nk kr = elim (dec_lt n k) [
    | yes lt ↦ ground (arith, f n lt, c n, fetch-lists w retry left (suc n) k ss f c g)
    | no ge ↦ (let e2 : n ≡ k = omega arith in ground (arith, c n))
  ]

  abbrev pub cached : GrpcResolver → World E → List ServiceInstance → GrpcResolver
  cached r w ss = record r { cache = record { services = ss; timestamp = some w.fetched_at } }

  -- The cache is not valid, and the registry answers.
  pub resolve-listed :
      (r : GrpcResolver) (w : World E) (ss : List ServiceInstance) (n : ℕ)
      → is_valid r.cache r.cache_ttl w.now ≡ false
      → fetch w r.retry_attempts (suc r.retry_attempts) 0 ≡ lists ss n
      → resolve r w ≡ counted n (resolve_listed r w ss)
  unfolding resolve resolve_fresh resolve_fetched
  resolve-listed r w ss n iv fe = rw (iv, fe)

  listed-push :
      (r : GrpcResolver) (w : World E) (s : ServiceInstance) (ss : List ServiceInstance)
      → has_service_changed r (s ∷ ss) ≡ true
      → w.update (map address_of (s ∷ ss)) ≡ none
      → (resolve_listed r w (s ∷ ss)).resolver ≡ record_services (cached r w (s ∷ ss)) (s ∷ ss)
  unfolding resolve_listed push has_service_changed
  listed-push r w s ss ch up = ground arith

  cached-ignores :
      (r : GrpcResolver) (w v : World E) (s : ServiceInstance) (ss : List ServiceInstance)
      → distinct (s ∷ ss) ≡ true
      → v.now - w.fetched_at < r.cache_ttl
      → resolve (record_services (cached r w (s ∷ ss)) (s ∷ ss)) v
        ≡ quiet (record_services (cached r w (s ∷ ss)) (s ∷ ss)) 0
  unfolding resolve is_valid get_cached resolve_as resolve_cached record_services
  cached-ignores r w v s ss di fresh =
      ground (arith, has_service_changed-record (cached r w (s ∷ ss)) (s ∷ ss))

  -- A resolver that has pushed and recorded services without a repeated address does not push them
  -- again, and does not ask the registry, for as long as its cache is valid: it does nothing at a
  -- notification of the registry.
  resolve-ignores :
      (r : GrpcResolver) (w v : World E) (s : ServiceInstance) (ss : List ServiceInstance) (n : ℕ)
      → is_valid r.cache r.cache_ttl w.now ≡ false
      → fetch w r.retry_attempts (suc r.retry_attempts) 0 ≡ lists (s ∷ ss) n
      → has_service_changed r (s ∷ ss) ≡ true
      → w.update (map address_of (s ∷ ss)) ≡ none
      → distinct (s ∷ ss) ≡ true
      → v.now - w.fetched_at < r.cache_ttl
      → resolve (resolve r w).resolver v ≡ quiet (resolve r w).resolver 0
  unfolding resolve resolve_as resolve_fresh resolve_fetched resolve_listed resolve_cached push
      is_valid get_cached counted
  resolve-ignores r w v s ss n iv fe ch up di fresh =
      subst (λ x. resolve x v ≡ quiet x 0)
        (sym (listed-push r w s ss ch up)
          ∙ sym (ap (λ (o : Outcome E). o.resolver) (resolve-listed r w (s ∷ ss) n iv fe)))
        (cached-ignores r w v s ss di fresh)
