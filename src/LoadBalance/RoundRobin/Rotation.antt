-- ===== src/LoadBalance/RoundRobin/Rotation.antt =====
-- loadbalance/round_robin/balancer.go: the picks of a new balancer rotate, until the index wraps.
use eidola.Common.{
  ℕ, ◌+◌, ◌-◌, ◌%◌, ◌<◌, ◌≡◌, refl, ap, ◌∙◌, ◌≢◌, some, List, [], arith, length, get_elem?,
  get_elem?-some, ◌∷◌, ◌==◌, if◌then◌else◌,
}
use eidola.LoadBalance.RoundRobin.{
  Balancer, pick, candidates, build, Filter, i32_mod, SubConn, no_sub_conn_available, u32_mod,
  add_u32, panics, picked, chosen,
}

module _ {C A I : Type 0} where
  -- The balancer after picks with these informations.
  abbrev pub after : Balancer C A I → List I → Balancer C A I
  after b [] = b
  after b (info ∷ infos) = after (pick b info).0 infos

  -- How many of them have a candidate.
  abbrev pub served : Balancer C A I → List I → ℕ
  served b [] = 0
  served b (info ∷ infos) = (if length (candidates b info) == 0 then 0 else 1) + served b infos

  -- Without a candidate the pick reports that none is available, and the index stays.
  pub pick-none :
      (b : Balancer C A I) (info : I)
      → candidates b info ≡ []
      → pick b info ≡ (b, no_sub_conn_available)
  unfolding pick
  pick-none b info h = rw h

  -- A pick changes neither the connections nor the filter.
  pick-candidates :
      (b : Balancer C A I) (info other : I) → candidates (pick b info).0 other ≡ candidates b other
  unfolding pick candidates
  pick-candidates b info other = ground arith

  pick-index :
      (b : Balancer C A I) (info : I)
      → b.index < u32_mod
      → (pick b info).0.index
        ≡ (b.index + (if length (candidates b info) == 0 then 0 else 1)) % u32_mod
  unfolding pick
  pick-index b info h = ground arith

  pick-chosen :
      (b : Balancer C A I) (info : I)
      → 0 < length (candidates b info)
      → add_u32 b.index 1 < i32_mod
      → (pick b info).1
        ≡ chosen (get_elem? (candidates b info) (add_u32 b.index 1 % length (candidates b info)))
  unfolding pick
  pick-chosen b info h l = ground arith

  after-candidates :
      (b : Balancer C A I) (infos : List I) (other : I)
      → candidates (after b infos) other ≡ candidates b other
  after-candidates b [] other = refl
  after-candidates b (info ∷ infos) other =
      after-candidates (pick b info).0 infos other ∙ pick-candidates b info other

  served-pick :
      (b : Balancer C A I) (info : I) (infos : List I)
      → served (pick b info).0 infos ≡ served b infos
  served-pick b info [] = refl
  served-pick b info (other ∷ infos) =
      ap (λ cs. (if length cs == 0 then 0 else 1) + served (pick b info).0 infos)
        (pick-candidates b info other)
      ∙ ap (λ n. (if length (candidates b other) == 0 then 0 else 1) + n) (served-pick b info infos)

  after-index :
      (b : Balancer C A I) (infos : List I)
      → b.index < u32_mod
      → (after b infos).index ≡ (b.index + served b infos) % u32_mod
  after-index b [] w = omega arith
  after-index b (info ∷ infos) w =
      let moved = pick-index b info w in
      omega (
        arith,
        after-index (pick b info).0 infos (omega (arith, moved)),
        served-pick b info infos,
        moved,
      )

  pick-after :
      (b : Balancer C A I) (infos : List I) (info : I)
      → b.index ≡ u32_mod - 1
      → 0 < length (candidates b info)
      → served b infos < i32_mod
      → (pick (after b infos) info).1
        ≡ chosen (get_elem? (candidates b info) (served b infos % length (candidates b info)))
  pick-after b infos info e h l =
      let same = after-candidates b infos info in
      let count = ap length same in
      let at = after-index b infos (omega arith) in
      let next : add_u32 (after b infos).index 1 ≡ served b infos = omega (arith, at, e) in
      pick-chosen (after b infos) info (omega (arith, count)) (omega (arith, next))
      ∙ rw (next, same)

  -- On a balancer that Build has made, after any picks, each with its own information, a pick that
  -- has a candidate returns the candidate at place n modulo the number of its candidates, where n is
  -- the number of those picks that had one, below 2^31; it does not panic.
  pub pick-rotates :
      (filter : Filter I A) (ready : List (C × A)) (infos : List I) (info : I)
      → 0 < length (candidates (build filter ready) info)
      → served (build filter ready) infos < i32_mod
      → (s : SubConn C A) × (get_elem?
            (candidates (build filter ready) info)
            (served (build filter ready) infos % length (candidates (build filter ready) info))
          ≡ some s)
        × ((pick (after (build filter ready) infos) info).1 ≡ picked s.conn)
  unfolding build chosen
  pick-rotates filter ready infos info h l =
      let b = build filter ready in
      let (s, found) =
        get_elem?-some (candidates b info) (served b infos % length (candidates b info))
          (omega arith) in
      (s, found, pick-after b infos info refl h l ∙ ap chosen found)

  -- The pick at the index 2^31 - 1 panics unless the number of candidates divides 2^31.
  pick-panics :
      (b : Balancer C A I) (info : I)
      → b.index + 1 ≡ i32_mod
      → 0 < length (candidates b info)
      → i32_mod % length (candidates b info) ≢ 0
      → (pick b info).1 ≡ panics
  unfolding pick
  pick-panics b info e h r = ground arith
