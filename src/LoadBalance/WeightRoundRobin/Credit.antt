-- ===== src/LoadBalance/WeightRoundRobin/Credit.antt =====
-- loadbalance/round_robin/weight_balancer.go: the weights as credits, and who is picked.
use eidola.Common.{
  ℕ, zero, suc, ◌+◌, ◌≤◌, ◌<◌, ◌≡◌, refl, sym, ◌∙◌, ◌⊎◌, inl, inr, Bool, true, false, none, some,
  List, [], ◌∷◌, arith, Bool-cases, length, get_elem?, All,
}
use eidola.Common.Word.{add_u32, u32_mod}
use eidola.LoadBalance.WeightRoundRobin.{WeightConn, Best, gain, visit, scan, settle, better}

module _ {C A : Type 0} where
  -- The sum of the current weights, as uint32.
  abbrev pub credit : List (WeightConn C A) → ℕ
  credit [] = 0
  credit (c ∷ cs) = add_u32 c.current_weight (credit cs)

  -- All weights are uint32 values.
  abbrev pub InRange : List (WeightConn C A) → Type 0
  InRange [] = Unit {0}
  InRange (c ∷ cs) = (c.current_weight < u32_mod) × (c.efficient_weight < u32_mod) × InRange cs

  pub credit-lt : (cs : List (WeightConn C A)) → credit cs < u32_mod
  credit-lt [] = omega arith
  credit-lt (c ∷ cs) = omega arith

  -- The loop adds to the credit what it adds to the total.
  pub credit-scan :
      (p : A → Bool) (i total : ℕ) (best : Best C A) (cs : List (WeightConn C A))
      → total < u32_mod
      → add_u32 (credit (scan p i total best cs).conns) total
        ≡ add_u32 (credit cs) (scan p i total best cs).total
  unfolding scan visit
  credit-scan p i total best [] h = refl
  credit-scan p i total best (c ∷ cs) h = elim (Bool-cases (p c.addr)) [
    | inl yes' ↦ rw yes' (
        omega (
          arith,
          credit-scan p (suc i) (add_u32 total c.efficient_weight) (better best i (gain c)) cs
              (omega arith),
        ))
    | inr no' ↦ rw no' (omega (arith, credit-scan p (suc i) total best cs h))
  ]

  pub total-scan :
      (p : A → Bool) (i total : ℕ) (best : Best C A) (cs : List (WeightConn C A))
      → total < u32_mod
      → (scan p i total best cs).total < u32_mod
  unfolding scan visit
  total-scan p i total best [] h = h
  total-scan p i total best (c ∷ cs) h =
      ground (
        arith,
        total-scan p (suc i) (visit p i total best c).total (visit p i total best c).best cs,
      )

  pub credit-settle :
      (i total : ℕ) (cs : List (WeightConn C A))
      → i < length cs
      → total < u32_mod
      → InRange cs
      → add_u32 (credit (settle i total cs)) total ≡ credit cs
  unfolding settle
  credit-settle i total [] h l r = elim h [ ]
  credit-settle zero total (c ∷ cs) h l r = omega (arith, credit-lt cs)
  credit-settle (suc i) total (c ∷ cs) h l r =
      omega (arith, credit-settle i total cs (omega arith) l r.2)

  pub InRange-scan :
      (p : A → Bool) (i total : ℕ) (best : Best C A) (cs : List (WeightConn C A))
      → InRange cs
      → InRange (scan p i total best cs).conns
  unfolding scan visit
  InRange-scan p i total best [] r = tt
  InRange-scan p i total best (c ∷ cs) r = ground (
    arith,
    InRange-scan p (suc i) (visit p i total best c).total (visit p i total best c).best cs r.2,
  )

  abbrev pub score : Best C A → ℕ
  score none = 0
  score (some (j, r)) = r.current_weight

  -- The connection stands at its position, which the loop has reached before or reaches now.
  abbrev pub Placed :
      (A → Bool) → Best C A → List (WeightConn C A) → ℕ → ℕ → WeightConn C A → Type 0
  Placed p best conns i j r =
      (best ≡ some (j, r))
      ⊎ ((k : ℕ) × (j ≡ i + k) × (get_elem? conns k ≡ some r) × (p r.addr ≡ true))

  better-cases :
      (best : Best C A) (i : ℕ) (c : WeightConn C A)
      → (better best i c ≡ best) ⊎ (better best i c ≡ some (i, c))
  unfolding better
  better-cases none i c = inr refl
  better-cases (some (j, r)) i c = ground arith

  score-better :
      (best : Best C A) (i : ℕ) (c : WeightConn C A)
      → (score best ≤ score (better best i c)) × (c.current_weight ≤ score (better best i c))
  unfolding better
  score-better none i c = omega arith
  score-better (some (j, r)) i c = ground arith

  score-visit :
      (p : A → Bool) (i total : ℕ) (best : Best C A) (c : WeightConn C A)
      → (score best ≤ score (visit p i total best c).best)
        × ((p (visit p i total best c).conn.addr ≡ false)
            ⊎ ((visit p i total best c).conn.current_weight ≤ score (visit p i total best c).best))
  unfolding visit
  score-visit p i total best c = ground (arith, score-better best i (gain c))

  visit-Placed :
      (p : A → Bool) (i total : ℕ) (best : Best C A) (c : WeightConn C A)
      → ((visit p i total best c).best ≡ best)
        ⊎ (((visit p i total best c).best ≡ some (i, (visit p i total best c).conn))
            × (p (visit p i total best c).conn.addr ≡ true))
  unfolding visit
  visit-Placed p i total best c = ground (arith, better-cases best i (gain c))

  score-scan :
      (p : A → Bool) (i total : ℕ) (best : Best C A) (cs : List (WeightConn C A))
      → score best ≤ score (scan p i total best cs).best
  unfolding scan
  score-scan p i total best [] = omega arith
  score-scan p i total best (c ∷ cs) =
      let v = visit p i total best c in
      omega (arith, (score-visit p i total best c).0, score-scan p (suc i) v.total v.best cs)

  pub heaviest-scan :
      (p : A → Bool) (i total : ℕ) (best : Best C A) (cs : List (WeightConn C A)) (bound : ℕ)
      → score (scan p i total best cs).best ≤ bound
      → All (λ d. (p d.addr ≡ false) ⊎ (d.current_weight ≤ bound)) (scan p i total best cs).conns
  unfolding scan
  heaviest-scan p i total best [] bound h = tt
  heaviest-scan p i total best (c ∷ cs) bound h =
      let v = visit p i total best c in
      (
        elim (score-visit p i total best c).1 [
          | inl skip ↦ inl skip
          | inr le ↦ inr (omega (arith, le, h, score-scan p (suc i) v.total v.best cs))
        ],
        heaviest-scan p (suc i) v.total v.best cs bound h,
      )

  pub scan-Placed :
      (p : A → Bool) (i total : ℕ) (best : Best C A) (cs : List (WeightConn C A)) (j : ℕ)
      (r : WeightConn C A)
      → (scan p i total best cs).best ≡ some (j, r)
      → Placed p best (scan p i total best cs).conns i j r
  unfolding scan
  scan-Placed p i total best [] j r e = inl e
  scan-Placed p i total best (c ∷ cs) j r e =
      let v = visit p i total best c in
      elim (scan-Placed p (suc i) v.total v.best cs j r e) [
        | inl earlier ↦ elim (visit-Placed p i total best c) [
          | inl kept ↦ inl (sym kept ∙ earlier)
          | inr (here, pass) ↦ inr (0, ground arith, ground arith, ground arith)
        ]
        | inr (k, at, found, pass) ↦ inr (suc k, omega (arith, at), found, pass)
      ]
