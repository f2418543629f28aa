-- ===== src/Isolation/Records.antt =====
-- internal/security/isolation.go, DefaultAccessControl: which records of calls are kept.
use eidola.Common.{
  ℕ, zero, suc, ◌+◌, ◌-◌, ◌≤◌, ◌<◌, ◌≡◌, refl, sym, ap, ◌∙◌, inl, inr, Option, none, some, List, [],
  ◌∷◌, ◌++◌, arith, leb, Bool-cases, length, length-append,
}
use mathlib.Core.List.{append-nil, append_assoc}
use eidola.Isolation.Access.{
  CallRecord, DefaultAccessControl, drop_first, record_call, set_max_records, get_records,
}

-- The last n elements.
abbrev pub last_of {ℓ} : {A : Type ℓ} → ℕ → List A → List A
last_of n xs = drop_first (length xs - n) xs

module _ {ℓ} {A : Type ℓ} where
  length-drop : (n : ℕ) (xs : List A) → length (drop_first n xs) ≡ length xs - n
  unfolding drop_first
  length-drop zero xs = omega arith
  length-drop (suc n) [] = omega arith
  length-drop (suc n) (x ∷ xs) = ground (arith, length-drop n xs)

  drop-append :
      (n : ℕ) (xs ys : List A) → n ≤ length xs → drop_first n (xs ++ ys) ≡ drop_first n xs ++ ys
  unfolding drop_first
  drop-append zero xs ys h = refl
  drop-append (suc n) [] ys h = absurd (omega arith)
  drop-append (suc n) (x ∷ xs) ys h = drop-append n xs ys (omega arith)

  drop_nothing : (n : ℕ) → drop_first {A = A} n [] ≡ []
  unfolding drop_first
  drop_nothing zero = refl
  drop_nothing (suc n) = refl

  drop-drop : (n m : ℕ) (xs : List A) → drop_first n (drop_first m xs) ≡ drop_first (m + n) xs
  unfolding drop_first
  drop-drop n zero xs = ap (λ k. drop_first k xs) (omega arith)
  drop-drop n (suc m) [] = drop_nothing n ∙ sym (drop_nothing (suc m + n))
  drop-drop n (suc m) (x ∷ xs) =
      let sum : suc (m + n) ≡ suc m + n = omega arith in
      drop-drop n m xs ∙ ap (λ k. drop_first k (x ∷ xs)) sum

  last_of-append : (n : ℕ) (xs ys : List A) → last_of n (last_of n xs ++ ys) ≡ last_of n (xs ++ ys)
  last_of-append n xs ys =
      let k = length xs - n in
      let front = drop-append k xs ys (omega arith) in
      let size = length-append (drop_first k xs) ys in
      let rest = length-drop k xs in
      let total = length-append xs ys in
      let m = length (drop_first k xs ++ ys) - n in
      let sum : k + m ≡ length (xs ++ ys) - n = omega arith in
      ap (drop_first m) (sym front)
      ∙ drop-drop m k (xs ++ ys)
      ∙ ap (λ i. drop_first i (xs ++ ys)) sum

  last_of-all : (n : ℕ) (xs : List A) → length xs ≤ n → last_of n xs ≡ xs
  unfolding drop_first
  last_of-all n xs h =
      let none_first : length xs - n ≡ 0 = omega arith in ap (λ i. drop_first i xs) none_first

  last_of-next :
      (n : ℕ) (x : A) (xs : List A) (y : A)
      → length (x ∷ xs) ≡ n
      → last_of n ((x ∷ xs) ++ y ∷ []) ≡ xs ++ y ∷ []
  unfolding drop_first
  last_of-next n x xs y h =
      let size = length-append xs (y ∷ []) in
      let one_first : suc (length (xs ++ y ∷ [])) - n ≡ 1 = omega arith in
      ap (λ i. drop_first i (x ∷ (xs ++ y ∷ []))) one_first

module _ {E : Type 0} where
  -- The calls are recorded one after another; none is a panic.
  unfoldable pub record_all :
      DefaultAccessControl E → List (CallRecord E) → Option (DefaultAccessControl E)
  record_all ac [] = some ac
  record_all ac (r ∷ rs) = elim (record_call ac r) [ none ↦ none | some q ↦ record_all q rs ]

  abbrev pub with_records : DefaultAccessControl E → List (CallRecord E) → DefaultAccessControl E
  with_records ac rs = record ac { call_records = rs }

  record_one :
      (ac : DefaultAccessControl E) (rs : List (CallRecord E)) (r : CallRecord E)
      → 0 < ac.max_records
      → length rs ≤ ac.max_records
      → record_call (with_records ac rs) r
        ≡ some (with_records ac (last_of ac.max_records (rs ++ r ∷ [])))
  unfolding record_call
  record_one ac [] r pos le = ground (arith, last_of-all ac.max_records (r ∷ []))
  record_one ac (x ∷ xs) r pos le =
      let size = length-append xs (r ∷ []) in
      elim (Bool-cases (leb ac.max_records (length (x ∷ xs)))) [
        | inl full ↦ ground (arith, last_of-next ac.max_records x xs r)
        | inr room ↦ ground (arith, last_of-all ac.max_records (x ∷ (xs ++ r ∷ [])))
      ]

  length-last_le : (n : ℕ) (rs : List (CallRecord E)) → length (last_of n rs) ≤ n
  length-last_le n rs = let size = length-drop (length rs - n) rs in omega arith

  recorded :
      (ac : DefaultAccessControl E) (old rs : List (CallRecord E))
      → 0 < ac.max_records
      → length old ≤ ac.max_records
      → record_all (with_records ac old) rs
        ≡ some (with_records ac (last_of ac.max_records (old ++ rs)))
  unfolding record_all
  recorded ac old [] pos le =
      ap (λ xs. some (with_records ac xs))
        (sym (last_of-all ac.max_records old le)
          ∙ ap (last_of ac.max_records) (sym (append-nil old)))
  recorded ac old (r ∷ rs) pos le =
      let next = last_of ac.max_records (old ++ r ∷ []) in
      ap (λ o. elim o [ none ↦ none | some q ↦ record_all q rs ]) (record_one ac old r pos le)
      ∙ recorded ac next rs pos (length-last_le ac.max_records (old ++ r ∷ []))
      ∙ ap (λ xs. some (with_records ac xs))
          (last_of-append ac.max_records (old ++ r ∷ []) rs
            ∙ ap (last_of ac.max_records) (append_assoc old (r ∷ []) rs))

  get_records-set_max_records :
      (ac : DefaultAccessControl E) (max : ℕ)
      → get_records (set_max_records ac max) ≡ last_of max ac.call_records
  unfolding get_records set_max_records
  get_records-set_max_records ac max = ground (arith, last_of-all max ac.call_records)

  -- The calls recorded by an access control that keeps at least one record are kept as far as they
  -- are among the last maxRecords, with those from before; with SetMaxRecords, as far as they are
  -- among the last of the new number.
  pub record_all-last_of :
      (ac : DefaultAccessControl E) (rs : List (CallRecord E)) (max : ℕ)
      → 0 < ac.max_records
      → length ac.call_records ≤ ac.max_records
      → (q : DefaultAccessControl E) × ((record_all ac rs ≡ some q)
          × (get_records q ≡ last_of ac.max_records (ac.call_records ++ rs))
          × (get_records (set_max_records q max)
              ≡ last_of max (last_of ac.max_records (ac.call_records ++ rs))))
  unfolding get_records
  record_all-last_of ac rs max pos le =
      let q = with_records ac (last_of ac.max_records (ac.call_records ++ rs)) in
      (q, (recorded ac ac.call_records rs pos le, refl, get_records-set_max_records q max))
