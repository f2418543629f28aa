-- ===== src/LoadBalance/WeightRoundRobin/Pick.antt =====
-- loadbalance/round_robin/weight_balancer.go: what Pick and Done guarantee.
use eidola.Common.{
  ℕ, zero, suc, ◌+◌, ◌-◌, ◌≤◌, ◌<◌, min, ◌≡◌, ap, subst, ◌⊎◌, inl, inr, Bool, true, false, none,
  some, List, [], ◌∷◌, arith, if◌then◌else◌, length, get_elem?, All,
}
use eidola.Common.Word.{u32_mod}
use eidola.LoadBalance.Filter.{passes, picked}
use eidola.LoadBalance.WeightRoundRobin.{
  WeightConn, WeightBalancer, Best, scan, settle, scanned, pick, pays, returned, done_weight,
}
use eidola.LoadBalance.WeightRoundRobin.Credit.{
  credit, InRange, score, credit-lt, credit-scan, total-scan, credit-settle, InRange-scan,
  heaviest-scan, scan-Placed,
}

get_elem?-lt {ℓ} :
    {A : Type ℓ} (xs : List A) (i : ℕ) {a : A} → get_elem? xs i ≡ some a → i < length xs
get_elem?-lt [] i e = cc
get_elem?-lt (x ∷ xs) zero e = omega arith
get_elem?-lt (x ∷ xs) (suc i) e = omega (arith, get_elem?-lt xs i e)

All-get_elem? {ℓ κ} :
    {A : Type ℓ} (P : A → Type κ) (xs : List A) (i : ℕ) {a : A}
    → get_elem? xs i ≡ some a
    → All P xs
    → P a
All-get_elem? P [] i e h = cc
All-get_elem? P (x ∷ xs) zero {a} e h = let same : x ≡ a = cc in subst P same h.0
All-get_elem? P (x ∷ xs) (suc i) e h = All-get_elem? P xs i e h.1

module _ {C A : Type 0} where
  returned-best :
      (b : Best C A) (j : ℕ) (c : C)
      → returned b ≡ picked (j, c)
      → (r : WeightConn C A) × (b ≡ some (j, r)) × (r.c ≡ c)
  unfolding returned
  returned-best none j c e = cc
  returned-best (some (i, r)) j c e = (r, ground arith, ground arith)

module _ {C A I : Type 0} where
  -- A pick that returns a connection returns one that passes the filter and whose current weight,
  -- after the efficient weights are added, is at least that of every connection that passes.
  pub pick-heaviest :
      (w : WeightBalancer C A I) (info : I) (j : ℕ) (c : C)
      → (pick w info).1 ≡ picked (j, c)
      → (r : WeightConn C A) × (get_elem? (scanned w info).conns j ≡ some r)
        × (r.c ≡ c)
        × (passes w.filter info r.addr ≡ true)
        × All
            (λ d. (passes w.filter info d.addr ≡ false) ⊎ (d.current_weight ≤ r.current_weight))
            (scanned w info).conns
  unfolding pick
  pick-heaviest w info j c e =
      let p = passes w.filter info in
      let (r, best, same) = returned-best (scanned w info).best j c e in
      let heavy =
        heaviest-scan p 0 0 none w.connections r.current_weight (omega (arith, ap score best)) in
      elim (scan-Placed p 0 0 none w.connections j r best) [
        | inl never ↦ cc
        | inr (k, at, found, pass) ↦
            let here : j ≡ k = omega (arith, at) in (r, rw here found, same, pass, heavy)
      ]

  -- A pick that returns a connection leaves the sum of the current weights, as uint32, unchanged.
  pub pick-credit :
      (w : WeightBalancer C A I) (info : I) (j : ℕ) (c : C)
      → InRange w.connections
      → (pick w info).1 ≡ picked (j, c)
      → credit (pick w info).0.connections ≡ credit w.connections
  unfolding pick pays
  pick-credit w info j c range e =
      let p = passes w.filter info in
      let s = scan p 0 0 none w.connections in
      let (r, found, same, pass, heavy) = pick-heaviest w info j c e in
      let (r', best, same') = returned-best (scanned w info).best j c e in
      let low = total-scan p 0 0 none w.connections (omega arith) in
      let inside = InRange-scan p 0 0 none w.connections range in
      rw best (
        omega (
          arith,
          credit-scan p 0 0 none w.connections (omega arith),
          credit-settle j s.total s.conns (get_elem?-lt s.conns j found) low inside,
          credit-lt w.connections,
          credit-lt (settle j s.total s.conns),
        ))

  -- The weights are unsigned: when some connection that passes has a current weight of 2^31 or
  -- more, which stands for a negative credit, the pick returns a connection of this kind.
  pick-negative :
      (w : WeightBalancer C A I) (info : I) (j k : ℕ) (c : C) (d : WeightConn C A)
      → get_elem? (scanned w info).conns k ≡ some d
      → passes w.filter info d.addr ≡ true
      → 2147483648 ≤ d.current_weight
      → (pick w info).1 ≡ picked (j, c)
      → (r : WeightConn C A) × (get_elem? (scanned w info).conns j ≡ some r)
        × (r.c ≡ c)
        × (2147483648 ≤ r.current_weight)
  pick-negative w info j k c d at pass high e =
      let (r, found, same, _, heavy) = pick-heaviest w info j c e in
      let most =
        All-get_elem?
          (λ (x : WeightConn C A).
            (passes w.filter info x.addr ≡ false) ⊎ (x.current_weight ≤ r.current_weight))
          (scanned w info).conns k at heavy in
      (r, found, same, ground arith)

-- Done moves the efficient weight by one, down on an error and up otherwise, and saturates at 0
-- and at 2^32 - 1.
done_weight-saturates :
    (failed : Bool) (w : ℕ)
    → w < u32_mod
    → done_weight failed w ≡ (if failed then w - 1 else min (w + 1) (u32_mod - 1))
unfolding done_weight
done_weight-saturates failed w h = ground arith
