-- ===== src/LoadBalance/Random.antt =====
-- loadbalance/random/: the uniform and the weighted random picker. The number that the generator
-- returns, b.rand.Intn(n), is an argument `draw : ℕ → ℕ`; weights are not negative.
pub mod Distribution
use eidola.Common.{
  ℕ, zero, suc, ◌+◌, ◌-◌, ◌*◌, ◌/◌, ◌%◌, ◌^◌, ◌≤◌, ◌<◌, min, String, ◌≡◌, refl, sym, ap, subst, ◌∙◌,
  ◌≢◌, ◌↔◌, ◌⊎◌, inl, inr, Bool, true, false, not, ◌&&◌, ◌||◌, Option, none, some, List, [], ◌∷◌,
  ◌++◌, map, arith, str_eq, eq_iff, eq_refl, ltb, leb, ◌==◌, if◌then◌else◌, ltb→lt, lt→ltb, leb→le,
  le→leb, Bool-cases, Option-cases, length, get_elem?, keep, any, All, length-append,
  length-keep-le, keep-append, get_elem?-some,
}
use eidola.LoadBalance.Filter.{Filter, passes, Outcome, picked, no_sub_conn_available, panics}

pub record SubConn (C A : Type 0) : Type 0 where
  pub c : C
  pub addr : A

pub record WeightConn (C A : Type 0) : Type 0 where
  pub c : C
  pub weight : ℕ
  pub addr : A

pub record Balancer (C A I : Type 0) : Type 0 where
  pub connections : List (SubConn C A)
  pub filter : Filter I A

pub record WeightBalancer (C A I : Type 0) : Type 0 where
  pub connections : List (WeightConn C A)
  pub filter : Filter I A

module _ {C A : Type 0} where
  unfoldable pub at_index : Option (SubConn C A) → Outcome C
  at_index none = panics
  at_index (some c) = picked c.c

  -- totalWeight of the candidates.
  unfoldable pub total_weight : List (WeightConn C A) → ℕ
  total_weight [] = 0
  total_weight (c ∷ cs) = c.weight + total_weight cs

  -- The second loop: the candidate whose share of the weights holds tgt.
  unfoldable pub choose : ℕ → List (WeightConn C A) → Outcome C
  choose tgt [] = no_sub_conn_available
  choose tgt (c ∷ cs) = if ltb tgt c.weight then picked c.c else choose (tgt - c.weight) cs

module _ {C A I : Type 0} (draw : ℕ → ℕ) where
  unfoldable pub pick : Balancer C A I → I → Outcome C
  unfolding at_index
  pick b info =
      let candidates = keep (λ c. passes b.filter info c.addr) b.connections in
      if length candidates == 0
      then no_sub_conn_available
      else at_index (get_elem? candidates (draw (length candidates)))

  -- Intn panics unless its argument is positive.
  unfoldable pub pick_weighted : WeightBalancer C A I → I → Outcome C
  unfolding total_weight choose
  pick_weighted b info =
      let candidates = keep (λ c. passes b.filter info c.addr) b.connections in
      if length candidates == 0
      then no_sub_conn_available
      else if total_weight candidates == 0
      then panics
      else choose (draw (total_weight candidates)) candidates

-- A missing weight attribute, or one of another type than int, counts as 0.
unfoldable pub weight_or_zero : Option ℕ → ℕ
weight_or_zero none = 0
weight_or_zero (some w) = w

module _ {C A I : Type 0} where
  unfoldable pub build : Filter I A → List (C × A) → Balancer C A I
  build filter ready = record {
    connections = map (λ e. record { c = e.0; addr = e.1 }) ready;
    filter = filter;
  }

  unfoldable pub build_weighted : (A → Option ℕ) → Filter I A → List (C × A) → WeightBalancer C A I
  unfolding weight_or_zero
  build_weighted weight filter ready = record {
    connections =
        map (λ e. record { c = e.0; weight = weight_or_zero (weight e.1); addr = e.1 }) ready;
    filter = filter;
  }
