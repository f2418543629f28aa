-- ===== src/Resolver/Fallback.antt =====
-- resolver.go, resolve: a registry that fails, the fallback addresses, and the way back.
use eidola.Common.{
  ℕ, zero, suc, ◌+◌, ◌≡◌, ap, ◌∙◌, inl, false, none, List, [], ◌∷◌, map, arith, if◌then◌else◌,
}
use eidola.Resolver.Defs.{
  ServiceInstance, GrpcResolver, World, Outcome, external, lists, fails, is_empty, is_valid,
  fallback_address, has_service_changed, fall_back, fetch, resolve_listed, resolve_fetched,
  resolve_fresh, resolve, counted,
}
use eidola.Resolver.Cache.{resolve-listed}

module _ {E : Type 0} where
  fetch-fails :
      (w : World E) (retry left n : ℕ) (err : ℕ → E)
      → ((i : ℕ) → w.list i ≡ inl (err i))
      → ((i : ℕ) → w.closed i ≡ false)
      → n + left ≡ retry
      → fetch w retry (suc left) n ≡ fails (err retry) (suc retry)
  unfolding fetch
  fetch-fails w retry zero n err f c e =
      let same : n ≡ retry = omega arith in ground (arith, f n, c n)
  fetch-fails w retry (suc left) n err f c e =
      ground (arith, f n, c n, fetch-fails w retry left (suc n) err f c)

  outage :
      (r : GrpcResolver) (w : World E) (e : E) (n : ℕ)
      → is_valid r.cache r.cache_ttl w.now ≡ false
      → fetch w r.retry_attempts (suc r.retry_attempts) 0 ≡ fails e n
      → ((resolve r w).resolver ≡ r)
        × ((resolve r w).listings ≡ n)
        × ((resolve r w).reports ≡ external e ∷ [])
        × ((resolve r w).updates ≡ (
            if is_empty r.fallback_addrs then [] else map fallback_address r.fallback_addrs ∷ []))
  unfolding resolve resolve_fresh resolve_fetched fall_back counted
  outage r w e n iv fe = ground arith

  -- While the registry fails, and the cache is not valid, a resolve that nothing closes asks once
  -- more than retryAttempts, reports the last error, pushes the fallback addresses if there are any,
  -- and leaves the resolver as it was.
  resolve-outage :
      (r : GrpcResolver) (w : World E) (err : ℕ → E)
      → is_valid r.cache r.cache_ttl w.now ≡ false
      → ((i : ℕ) → w.list i ≡ inl (err i))
      → ((i : ℕ) → w.closed i ≡ false)
      → ((resolve r w).resolver ≡ r)
        × ((resolve r w).listings ≡ suc r.retry_attempts)
        × ((resolve r w).reports ≡ external (err r.retry_attempts) ∷ [])
        × ((resolve r w).updates ≡ (
            if is_empty r.fallback_addrs then [] else map fallback_address r.fallback_addrs ∷ []))
  resolve-outage r w err iv f c =
      outage r w (err r.retry_attempts) (suc r.retry_attempts) iv
        (fetch-fails w r.retry_attempts r.retry_attempts 0 err f c (omega arith))

  listed-unchanged :
      (r : GrpcResolver) (v : World E) (s : ServiceInstance) (ss : List ServiceInstance)
      → has_service_changed r (s ∷ ss) ≡ false
      → ((resolve_listed r v (s ∷ ss)).updates ≡ []) × ((resolve_listed r v (s ∷ ss)).error ≡ none)
  unfolding resolve_listed has_service_changed
  listed-unchanged r v s ss ch = ground arith

  -- When the fallback addresses have been pushed in an outage, and the registry then lists the same
  -- services as before it, nothing is pushed: the client stays with the fallback addresses.
  fallback-stays :
      (r : GrpcResolver) (w v : World E) (e : E) (s : ServiceInstance) (ss : List ServiceInstance)
      (n k : ℕ)
      → is_empty r.fallback_addrs ≡ false
      → is_valid r.cache r.cache_ttl w.now ≡ false
      → fetch w r.retry_attempts (suc r.retry_attempts) 0 ≡ fails e n
      → has_service_changed r (s ∷ ss) ≡ false
      → is_valid r.cache r.cache_ttl v.now ≡ false
      → fetch v r.retry_attempts (suc r.retry_attempts) 0 ≡ lists (s ∷ ss) k
      → ((resolve r w).updates ≡ map fallback_address r.fallback_addrs ∷ [])
        × ((resolve (resolve r w).resolver v).updates ≡ [])
        × ((resolve (resolve r w).resolver v).error ≡ none)
  unfolding counted
  fallback-stays r w v e s ss n k fb iw fw ch iv fv =
      let o = outage r w e n iw fw in
      let l = resolve-listed r v (s ∷ ss) k iv fv in
      let u = listed-unchanged r v s ss ch in
      (
        rw (o.3, fb),
        ap (λ x. (resolve x v).updates) o.0 ∙ ap (λ (x : Outcome E). x.updates) l ∙ u.0,
        ap (λ x. (resolve x v).error) o.0 ∙ ap (λ (x : Outcome E). x.error) l ∙ u.1,
      )
