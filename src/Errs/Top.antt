-- ===== src/Errs/Top.antt =====
-- internal/errs/enhanced_errors.go, GetTopErrors: the order of the errors.
use eidola.Common.{
  ℕ, zero, suc, ◌≤◌, min, ◌≡◌, refl, sym, ap, subst, ◌∙◌, inl, inr, Bool, true, false, List, [],
  ◌∷◌, ◌++◌, map, arith, ltb, ltb→lt, Bool-cases, length, keep, All,
}
use eidola.Common.Dict.{Entry}
use eidola.Errs.Defs.{AggregatedError, settle, sort_errors, take, get_top_errors}

-- No error comes after one with a smaller count.
abbrev pub Descending : List AggregatedError → Type 0
Descending [] = Unit {0}
Descending (a ∷ rest) = All (λ b. b.count ≤ a.count) rest × Descending rest

settle_keeps :
    (p : AggregatedError → Bool) (a : AggregatedError) (bs : List AggregatedError)
    → length (keep p ((settle a bs).0 ∷ (settle a bs).1)) ≡ length (keep p (a ∷ bs))
unfolding settle
settle_keeps p a [] = refl
settle_keeps p a (b ∷ bs) = ground (arith, settle_keeps p a bs, settle_keeps p b bs)

length-settle :
    (a : AggregatedError) (bs : List AggregatedError) → length (settle a bs).1 ≡ length bs
unfolding settle
length-settle a [] = refl
length-settle a (b ∷ bs) = ground (arith, length-settle a bs, length-settle b bs)

settle-swap :
    (a b : AggregatedError) (bs : List AggregatedError)
    → ltb a.count b.count ≡ true
    → ((settle b bs).0, a ∷ (settle b bs).1) ≡ settle a (b ∷ bs)
unfolding settle
settle-swap a b bs h = ground arith

settle-pass :
    (a b : AggregatedError) (bs : List AggregatedError)
    → ltb a.count b.count ≡ false
    → ((settle a bs).0, b ∷ (settle a bs).1) ≡ settle a (b ∷ bs)
unfolding settle
settle-pass a b bs h = ground arith

abbrev AtMost : ℕ → List AggregatedError → Type 0
AtMost n bs = All (λ b. b.count ≤ n) bs

settle_bounded :
    (n : ℕ) (a : AggregatedError) (bs : List AggregatedError)
    → a.count ≤ n
    → AtMost n bs
    → ((settle a bs).0.count ≤ n) × AtMost n (settle a bs).1
unfolding settle
settle_bounded n a [] h hs = (h, tt)
settle_bounded n a (b ∷ bs) h hs =
    let goal : AggregatedError × List AggregatedError → Type 0 =
      λ s. (s.0.count ≤ n) × AtMost n s.1 in
    elim (Bool-cases (ltb a.count b.count)) [
      | inl less ↦
          let r = settle_bounded n b bs hs.0 hs.1 in
          subst goal (settle-swap a b bs less) (r.0, (h, r.1))
      | inr more ↦
          let r = settle_bounded n a bs h hs.1 in
          subst goal (settle-pass a b bs more) (r.0, (hs.0, r.1))
    ]

AtMost-more : (n m : ℕ) (bs : List AggregatedError) → n ≤ m → AtMost n bs → AtMost m bs
AtMost-more n m [] le h = tt
AtMost-more n m (b ∷ bs) le h = (omega arith, AtMost-more n m bs le h.1)

settle_highest :
    (a : AggregatedError) (bs : List AggregatedError)
    → (a.count ≤ (settle a bs).0.count) × AtMost (settle a bs).0.count (settle a bs).1
unfolding settle
settle_highest a [] = (omega arith, tt)
settle_highest a (b ∷ bs) =
    let goal : AggregatedError × List AggregatedError → Type 0 =
      λ s. (a.count ≤ s.0.count) × AtMost s.0.count s.1 in
    elim (Bool-cases (ltb a.count b.count)) [
      | inl less ↦
          let r = settle_highest b bs in
          let lt = ltb→lt a.count b.count less in
          subst goal (settle-swap a b bs less) (omega arith, (omega arith, r.1))
      | inr more ↦
          let r = settle_highest a bs in
          let le : b.count ≤ a.count = ground arith in
          subst goal (settle-pass a b bs more) (r.0, (omega arith, r.1))
    ]

sort_bounded : (k n : ℕ) (xs : List AggregatedError) → AtMost n xs → AtMost n (sort_errors k xs)
unfolding sort_errors
sort_bounded zero n xs h = h
sort_bounded (suc k) n [] h = tt
sort_bounded (suc k) n (a ∷ rest) h =
    let r = settle_bounded n a rest h.0 h.1 in (r.0, sort_bounded k n (settle a rest).1 r.1)

sort_errors-Descending :
    (k : ℕ) (xs : List AggregatedError) → length xs ≤ k → Descending (sort_errors k xs)
unfolding sort_errors
sort_errors-Descending zero [] h = tt
sort_errors-Descending zero (x ∷ xs) h = absurd (omega arith)
sort_errors-Descending (suc k) [] h = tt
sort_errors-Descending (suc k) (a ∷ rest) h =
    let s = settle a rest in
    let size = length-settle a rest in
    (
      sort_bounded k s.0.count s.1 (settle_highest a rest).1,
      sort_errors-Descending k s.1 (omega arith),
    )

sort_keeps :
    (p : AggregatedError → Bool) (k : ℕ) (xs : List AggregatedError)
    → length (keep p (sort_errors k xs)) ≡ length (keep p xs)
unfolding sort_errors
sort_keeps p zero xs = refl
sort_keeps p (suc k) [] = refl
sort_keeps p (suc k) (a ∷ rest) =
    ground (arith, settle_keeps p a rest, sort_keeps p k (settle a rest).1)

split_at :
    (n : ℕ) (xs : List AggregatedError)
    → (rest : List AggregatedError) × ((xs ≡ take n xs ++ rest)
        × (length (take n xs) ≡ min n (length xs)))
unfolding take
split_at zero xs = (xs, (refl, ground arith))
split_at (suc n) [] = ([], (refl, ground arith))
split_at (suc n) (x ∷ xs) =
    let (rest, (e, size)) = split_at n xs in (rest, (ap (λ ys. x ∷ ys) e, ground arith))

length-sort : (k : ℕ) (xs : List AggregatedError) → length (sort_errors k xs) ≡ length xs
unfolding sort_errors
length-sort zero xs = refl
length-sort (suc k) [] = refl
length-sort (suc k) (a ∷ rest) =
    ground (arith, length-settle a rest, length-sort k (settle a rest).1)

length-values :
    (order : List (Entry AggregatedError)) → length (map (λ e. e.value) order) ≡ length order
length-values [] = refl
length-values (e ∷ es) = ap suc (length-values es)

-- GetTopErrors returns n of the errors, or all if there are fewer, in the order of their counts,
-- highest first, and none that it leaves out has a higher count than one that it returns: with those
-- it leaves out, it has as many errors of any kind as there are.
pub get_top_errors-Descending :
    (order : List (Entry AggregatedError)) (n : ℕ) (p : AggregatedError → Bool)
    → (rest : List AggregatedError) × (Descending (get_top_errors order n ++ rest)
        × (length (get_top_errors order n) ≡ min n (length order))
        × (length (keep p (get_top_errors order n ++ rest))
            ≡ length (keep p (map (λ e. e.value) order))))
unfolding get_top_errors
get_top_errors-Descending order n p =
    let values = map (λ e. e.value) order in
    let size = length-values order in
    let sorted = sort_errors (length order) values in
    let (rest, (e, len)) = split_at n sorted in
    (
      rest,
      (
        subst Descending e (sort_errors-Descending (length order) values (omega arith)),
        len ∙ ap (min n) (length-sort (length order) values ∙ size),
        ap (λ xs. length (keep p xs)) (sym e) ∙ sort_keeps p (length order) values,
      ),
    )
