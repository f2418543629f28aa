-- ===== src/LoadBalance/Random/Distribution.antt =====
-- loadbalance/random/weight_balancer.go: each candidate is picked by as many draws as its weight.
use eidola.Common.{
  ℕ, ◌+◌, ◌-◌, ◌≤◌, ◌<◌, ◌≡◌, refl, ap, ◌∙◌, inl, inr, List, [], ◌∷◌, ◌++◌, arith, ltb, Bool-cases,
  length, keep,
}
use eidola.LoadBalance.Filter.{passes, picked, panics}
use eidola.LoadBalance.Random.{WeightConn, WeightBalancer, total_weight, choose, pick_weighted}

module _ {C A : Type 0} where
  total_weight-append :
      (xs ys : List (WeightConn C A)) → total_weight (xs ++ ys) ≡ total_weight xs + total_weight ys
  unfolding total_weight
  total_weight-append [] ys = omega arith
  total_weight-append (x ∷ xs) ys = omega (arith, total_weight-append xs ys)

  total_weight-empty : (cs : List (WeightConn C A)) → length cs ≡ 0 → total_weight cs ≡ 0
  unfolding total_weight
  total_weight-empty [] e = refl
  total_weight-empty (c ∷ cs) e = absurd (omega arith)

  -- A draw picks a candidate exactly when it falls into the share that follows those before it.
  choose-share :
      (xs : List (WeightConn C A)) (c : WeightConn C A) (ys : List (WeightConn C A)) (tgt : ℕ)
      → total_weight xs ≤ tgt
      → tgt < total_weight xs + c.weight
      → choose tgt (xs ++ c ∷ ys) ≡ picked c.c
  unfolding choose total_weight
  choose-share [] c ys tgt low high = ground arith
  choose-share (x ∷ xs) c ys tgt low high =
      ground (arith, choose-share xs c ys (tgt - x.weight) (omega arith) (omega arith))

  choose-some :
      (cs : List (WeightConn C A)) (tgt : ℕ)
      → tgt < total_weight cs
      → (xs : List (WeightConn C A)) × (c : WeightConn C A) × (ys : List (WeightConn C A)) × (cs
          ≡ xs ++ c ∷ ys)
        × (total_weight xs ≤ tgt)
        × (tgt < total_weight xs + c.weight)
  unfolding total_weight
  choose-some [] tgt h = absurd (omega arith)
  choose-some (x ∷ xs) tgt h = elim (Bool-cases (ltb tgt x.weight)) [
    | inl here ↦ ([], x, xs, refl, omega arith, ground arith)
    | inr later ↦
        let past : x.weight ≤ tgt = ground arith in
        let (as', c, ys, split, low, high) = choose-some xs (tgt - x.weight) (omega arith) in
        (x ∷ as', c, ys, ap (λ zs. x ∷ zs) split, omega arith, omega arith)
  ]

module _ {C A I : Type 0} where
  -- The connections that pass the filter, in order.
  abbrev pub weighted_candidates : WeightBalancer C A I → I → List (WeightConn C A)
  weighted_candidates b info = keep (λ c. passes b.filter info c.addr) b.connections

  pick_weighted-choose :
      (draw : ℕ → ℕ) (b : WeightBalancer C A I) (info : I)
      → 0 < total_weight (weighted_candidates b info)
      → pick_weighted draw b info
        ≡ choose (draw (total_weight (weighted_candidates b info))) (weighted_candidates b info)
  unfolding pick_weighted
  pick_weighted-choose draw b info h =
      ground (arith, total_weight-empty (weighted_candidates b info))

  -- If the weights of the candidates have a positive sum, every draw below it picks a candidate,
  -- and the one whose share of the sum, after the shares of those before it, holds the draw.
  pick_weighted-share :
      (draw : ℕ → ℕ) (b : WeightBalancer C A I) (info : I)
      → draw (total_weight (weighted_candidates b info)) < total_weight (weighted_candidates b info)
      → (xs : List (WeightConn C A)) × (c : WeightConn C A) × (ys : List (WeightConn C A))
        × (weighted_candidates b info ≡ xs ++ c ∷ ys)
        × (total_weight xs ≤ draw (total_weight (weighted_candidates b info)))
        × (draw (total_weight (weighted_candidates b info)) < total_weight xs + c.weight)
        × (pick_weighted draw b info ≡ picked c.c)
  pick_weighted-share draw b info h =
      let cs = weighted_candidates b info in
      let tgt = draw (total_weight cs) in
      let (xs, c, ys, split, low, high) = choose-some cs tgt h in
      (
        xs,
        c,
        ys,
        split,
        low,
        high,
        pick_weighted-choose draw b info (omega arith)
            ∙ (ap (choose tgt) split ∙ choose-share xs c ys tgt low high),
      )

  -- If some connections pass the filter and all of them have the weight 0, the pick panics.
  pick_weighted-panics :
      (draw : ℕ → ℕ) (b : WeightBalancer C A I) (info : I)
      → 0 < length (weighted_candidates b info)
      → total_weight (weighted_candidates b info) ≡ 0
      → pick_weighted draw b info ≡ panics
  unfolding pick_weighted
  pick_weighted-panics draw b info some' zero' = ground arith
