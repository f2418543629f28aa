-- ===== src/LoadBalance/LeastActive/Choice.antt =====
-- loadbalance/leastactive/balancer.go: the pick is a least active connection, and Done undoes it.
use eidola.Common.{
  ℕ, zero, suc, ◌+◌, ◌≤◌, ◌<◌, ◌≡◌, refl, ap, ◌∙◌, ◌⊎◌, inl, inr, Bool, true, false, Option, none,
  some, List, [], ◌∷◌, arith, length, get_elem?, All,
}
use eidola.Common.Word.{u32_mod}
use native.Mathlib.Nat.{add-zero, add-suc, suc-add}
use eidola.LoadBalance.LeastActive.{
  ActiveConn, Balancer, Least, max_u32, picked, visit, scan, add_active, bumped, returned, least,
  pick, done, err_load_balance_available,
}

module _ {C A : Type 0} where
  abbrev pub Fits : (A → Bool) → ℕ → List (ActiveConn C A) → Type 0
  Fits p bound = All (λ d. (p d.address ≡ false) ⊎ (bound ≤ d.active))

  -- The connection that the loop ends with was there before, or stands at its position, passes the
  -- filter and has the count that the loop ends with, which is less than the one before.
  abbrev pub Held : (A → Bool) → Least C A → Least C A → List (ActiveConn C A) → ℕ → Type 0
  Held p l l' cs i =
      (l' ≡ l)
      ⊎ ((k : ℕ) × (r : ActiveConn C A) × (l'.conn ≡ some (i + k, r))
          × (get_elem? cs k ≡ some r)
          × (p r.address ≡ true)
          × (l'.count ≡ r.active)
          × (l'.count < l.count))

  count-visit :
      (p : A → Bool) (i : ℕ) (l : Least C A) (c : ActiveConn C A)
      → ((visit p i l c).count ≤ l.count)
        × ((p c.address ≡ false) ⊎ ((visit p i l c).count ≤ c.active))
  unfolding visit
  count-visit p i l c = ground arith

  visit-Held :
      (p : A → Bool) (i : ℕ) (l : Least C A) (c : ActiveConn C A)
      → (visit p i l c ≡ l)
        ⊎ ((visit p i l c ≡ record { count = c.active; conn = some (i, c) })
            × (p c.address ≡ true)
            × (c.active < l.count))
  unfolding visit
  visit-Held p i l c = ground arith

  count-scan :
      (p : A → Bool) (i : ℕ) (l : Least C A) (cs : List (ActiveConn C A))
      → (scan p i l cs).count ≤ l.count
  unfolding scan
  count-scan p i l [] = omega arith
  count-scan p i l (c ∷ cs) =
      omega (arith, (count-visit p i l c).0, count-scan p (suc i) (visit p i l c) cs)

  pub scan-Fits :
      (p : A → Bool) (i : ℕ) (l : Least C A) (cs : List (ActiveConn C A)) (bound : ℕ)
      → bound ≤ (scan p i l cs).count
      → Fits p bound cs
  unfolding scan
  scan-Fits p i l [] bound h = tt
  scan-Fits p i l (c ∷ cs) bound h = (
    elim (count-visit p i l c).1 [
      | inl skip ↦ inl skip
      | inr le ↦ inr (omega (arith, le, h, count-scan p (suc i) (visit p i l c) cs))
    ],
    scan-Fits p (suc i) (visit p i l c) cs bound h,
  )

  pub scan-Held :
      (p : A → Bool) (i : ℕ) (l : Least C A) (cs : List (ActiveConn C A))
      → Held p l (scan p i l cs) cs i
  unfolding scan
  scan-Held p i l [] = inl refl
  scan-Held p i l (c ∷ cs) = elim (scan-Held p (suc i) (visit p i l c) cs) [
    | inl kept ↦ elim (visit-Held p i l c) [
      | inl same ↦ inl (kept ∙ same)
      | inr (here, pass, less) ↦ inr (
        0,
        c,
        ap (λ (x : Least C A). x.conn) (kept ∙ here) ∙ (rw add-zero),
        refl,
        pass,
        ap (λ (x : Least C A). x.count) (kept ∙ here),
        omega (arith, less, ap (λ (x : Least C A). x.count) (kept ∙ here)),
      )
    ]
    | inr (k, r, at, found, pass, count, less) ↦ inr (
      suc k,
      r,
      at ∙ (rw (suc-add, add-suc)),
      found,
      pass,
      count,
      omega (arith, less, (count-visit p i l c).0),
    )
  ]

  returned-conn :
      (o : Option (ℕ × ActiveConn C A)) (j : ℕ) (c : C)
      → returned o ≡ picked j c
      → (r : ActiveConn C A) × (o ≡ some (j, r)) × (r.conn ≡ c)
  unfolding returned
  returned-conn none j c e = cc
  returned-conn (some (i, r)) j c e = (r, ground arith, ground arith)

  add_active-undone :
      (i : ℕ) (cs : List (ActiveConn C A))
      → All (λ d. d.active < u32_mod) cs
      → add_active i max_u32 (add_active i 1 cs) ≡ cs
  unfolding add_active
  add_active-undone i [] h = refl
  add_active-undone zero (c ∷ cs) h = ground arith
  add_active-undone (suc i) (c ∷ cs) h = ap (λ ds. c ∷ ds) (add_active-undone i cs h.1)

  add_active-length :
      (i d : ℕ) (cs : List (ActiveConn C A)) → length (add_active i d cs) ≡ length cs
  unfolding add_active
  add_active-length i d [] = refl
  add_active-length zero d (c ∷ cs) = refl
  add_active-length (suc i) d (c ∷ cs) = ap suc (add_active-length i d cs)

module _ {C A I : Type 0} where
  -- A pick that returns a connection returns one that passes the filter and has no more active
  -- requests than any connection that passes, and fewer than 2^32 - 1.
  pub pick-least :
      (b : Balancer C A I) (info : I) (j : ℕ) (c : C)
      → (pick b info).1 ≡ picked j c
      → (r : ActiveConn C A) × (get_elem? b.connections j ≡ some r)
        × (r.conn ≡ c)
        × (b.filter info r.address ≡ true)
        × (r.active < max_u32)
        × Fits (b.filter info) r.active b.connections
  unfolding pick
  pick-least b info j c e =
      let p = b.filter info in
      let start : Least C A = record { count = max_u32; conn = none } in
      let (r, held, same) = returned-conn (least b info).conn j c e in
      elim (scan-Held p 0 start b.connections) [
        | inl never ↦ absurd (cc (ap (λ (x : Least C A). x.conn) never))
        | inr (k, r', at, found, pass, count, less) ↦
            let here : j ≡ k = ground arith in
            let who : r ≡ r' = ground arith in
            (
              r,
              rw (here, who) found,
              same,
              rw who pass,
              omega (arith, less, count, ap (λ (x : ActiveConn C A). x.active) who),
              scan-Fits p 0 start b.connections r.active
                  (omega (arith, count, ap (λ (x : ActiveConn C A). x.active) who)),
            )
      ]

  -- A pick is refused only if every connection that passes the filter has 2^32 - 1 active requests.
  pick-refused :
      (b : Balancer C A I) (info : I)
      → (pick b info).1 ≡ err_load_balance_available
      → Fits (b.filter info) max_u32 b.connections
  unfolding pick returned
  pick-refused b info e =
      let p = b.filter info in
      let start : Least C A = record { count = max_u32; conn = none } in
      elim (scan-Held p 0 start b.connections) [
        | inl never ↦
            scan-Fits p 0 start b.connections max_u32
              (omega (arith, ap (λ (x : Least C A). x.count) never))
        | inr (k, r, at, found, pass, count, less) ↦ absurd (cc (ap returned at))
      ]

  -- Done of a pick that returned a connection restores the balancer as it was before the pick.
  done-pick :
      (b : Balancer C A I) (info : I) (j : ℕ) (c : C)
      → All (λ d. d.active < u32_mod) b.connections
      → (pick b info).1 ≡ picked j c
      → done (pick b info).0 j ≡ b
  unfolding pick done bumped
  done-pick b info j c range e =
      let (r, held, same) = returned-conn (least b info).conn j c e in
      rw held (ap (λ cs. record b { connections = cs }) (add_active-undone j b.connections range))
