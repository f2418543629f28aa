-- ===== src/Errs/Counts.antt =====
-- internal/errs/enhanced_errors.go, Record: the counts and the samples of the errors of a code.
use eidola.Common.{
  ℕ, zero, suc, ◌≤◌, String, ◌≡◌, refl, sym, ap, subst, ◌∙◌, inl, inr, Bool, true, ◌&&◌, Option,
  none, some, List, [], ◌∷◌, ◌++◌, map, arith, str_eq, eq_iff, ltb, if◌then◌else◌, Bool-cases,
  Option-cases, length, keep, length-append,
}
use mathlib.Core.List.{append-nil, append_assoc}
use eidola.Common.Dict.{get, assign, get-assign}
use eidola.Errs.Defs.{
  EnhancedError, AggregatedError, ErrorAggregator, aggregated_with, log_severe, record_error,
  new_error_aggregator, global_error_aggregator, severity_error, take,
}

-- The errors are recorded one after another, each with its time; none is a panic.
unfoldable pub record_all : ErrorAggregator → List (EnhancedError × ℕ) → Option ErrorAggregator
record_all ea [] = some ea
record_all ea ((err, now) ∷ rest) = elim (record_error ea err now) [
  | none ↦ none
  | some q ↦ record_all q rest
]

abbrev pub of_code : String → List (EnhancedError × ℕ) → List EnhancedError
of_code code errs = keep (λ e. str_eq e.code code) (map (λ r. r.0) errs)

-- The count and the samples that stand for some errors of one code.
abbrev pub summary : Option AggregatedError → ℕ × List EnhancedError
summary none = (0, [])
summary (some a) = (a.count, a.samples)

abbrev Summed : List EnhancedError → Option AggregatedError → Type 0
Summed seen none = seen ≡ []
Summed seen (some a) = (a.count ≡ length seen) × (a.samples ≡ take 10 seen) × (a.max_samples ≡ 10)

take-nothing : (n : ℕ) → take {A = EnhancedError} n [] ≡ []
unfolding take
take-nothing zero = refl
take-nothing (suc n) = refl

take-snoc :
    (n : ℕ) (xs : List EnhancedError) (e : EnhancedError)
    → take n (xs ++ e ∷ [])
      ≡ (if ltb (length (take n xs)) n then take n xs ++ e ∷ [] else take n xs)
unfolding take
take-snoc zero xs e = refl
take-snoc (suc n) [] e = ground (arith, take-nothing n)
take-snoc (suc n) (x ∷ xs) e = ground (arith, take-snoc n xs e)

aggregated-Summed :
    (seen : List EnhancedError) (a : Option AggregatedError) (err : EnhancedError) (now : ℕ)
    → Summed seen a
    → Summed (seen ++ err ∷ []) (some (aggregated_with a err now))
unfolding aggregated_with take
aggregated-Summed seen none err now h =
    subst (λ xs. Summed (xs ++ err ∷ []) (some (aggregated_with none err now))) (sym h)
      (refl, refl, refl)
aggregated-Summed seen (some a) err now h =
    let size = length-append seen (err ∷ []) in
    (ground arith, ground (arith, take-snoc 10 seen err), h.2)

recorded :
    (ea q : ErrorAggregator) (err : EnhancedError) (now : ℕ)
    → record_error ea err now ≡ some q
    → q.errors ≡ assign ea.errors err.code (aggregated_with (get ea.errors err.code) err now)
unfolding record_error log_severe
recorded ea q err now h = ground arith

one-Summed :
    (code : String) (seen : List EnhancedError) (ea q : ErrorAggregator) (err : EnhancedError)
    (now : ℕ)
    → Summed seen (get ea.errors code)
    → record_error ea err now ≡ some q
    → Summed (if str_eq err.code code then seen ++ err ∷ [] else seen) (get q.errors code)
one-Summed code seen ea q err now s h =
    let add = aggregated_with (get ea.errors err.code) err now in
    let found : get q.errors code
        ≡ (if str_eq err.code code then some add else get ea.errors code) =
      ap (λ m. get m code) (recorded ea q err now h) ∙ get-assign ea.errors err.code add code in
    elim (Bool-cases (str_eq err.code code)) [
      | inl same ↦
          let codes : err.code ≡ code = ground (arith, eq_iff err.code code) in
          let before : Summed seen (get ea.errors err.code) =
            subst (λ c. Summed seen (get ea.errors c)) (sym codes) s in
          let now_found : some add ≡ get q.errors code = ground arith in
          let grown : seen ++ err ∷ [] ≡ (if str_eq err.code code then seen ++ err ∷ [] else seen) =
            ground arith in
          subst (λ xs. Summed xs (get q.errors code)) grown
            (subst (Summed (seen ++ err ∷ [])) now_found
              (aggregated-Summed seen (get ea.errors err.code) err now before))
      | inr other ↦
          let still : get ea.errors code ≡ get q.errors code = ground arith in
          let same_seen : seen ≡ (if str_eq err.code code then seen ++ err ∷ [] else seen) =
            ground arith in
          subst (λ xs. Summed xs (get q.errors code)) same_seen (subst (Summed seen) still s)
    ]

all-Summed :
    (code : String) (seen : List EnhancedError) (ea q : ErrorAggregator)
    (errs : List (EnhancedError × ℕ))
    → Summed seen (get ea.errors code)
    → record_all ea errs ≡ some q
    → Summed (seen ++ of_code code errs) (get q.errors code)
unfolding record_all
all-Summed code seen ea q [] s h =
    let same : get ea.errors code ≡ get q.errors code = ground arith in
    subst (λ xs. Summed xs (get q.errors code)) (sym (append-nil seen)) (subst (Summed seen) same s)
all-Summed code seen ea q ((err, now) ∷ rest) s h = elim (Option-cases (record_error ea err now)) [
  | inl panics ↦ absurd (ground arith)
  | inr (q1, e) ↦
      let next = if str_eq err.code code then seen ++ err ∷ [] else seen in
      let same : next ++ of_code code rest ≡ seen ++ of_code code ((err, now) ∷ rest) =
        ground (arith, append_assoc seen (err ∷ []) (of_code code rest)) in
      subst (λ xs. Summed xs (get q.errors code)) same
        (all-Summed code next q1 q rest (one-Summed code seen ea q1 err now s e) (ground arith))
]

-- Every error has a line in its trace.
abbrev pub traced : List (EnhancedError × ℕ) → Bool
traced [] = true
traced (r ∷ rest) = ltb 0 (length r.0.trace) && traced rest

one_recorded :
    (ea : ErrorAggregator) (err : EnhancedError) (now : ℕ)
    → ea.logger ≡ true
    → ltb 0 (length err.trace) ≡ true
    → (q : ErrorAggregator) × ((record_error ea err now ≡ some q) × (q.logger ≡ true))
unfolding record_error log_severe
one_recorded ea err now lo tr = elim (Option-cases (record_error ea err now)) [
  | inl panics ↦ absurd (ground arith)
  | inr (q, e) ↦ (q, (e, ground arith))
]

all_recorded :
    (ea : ErrorAggregator) (errs : List (EnhancedError × ℕ))
    → ea.logger ≡ true
    → traced errs ≡ true
    → (q : ErrorAggregator) × (record_all ea errs ≡ some q)
unfolding record_all
all_recorded ea [] lo tr = (ea, refl)
all_recorded ea ((err, now) ∷ rest) lo tr =
    let (q, (e, lo_q)) = one_recorded ea err now lo (ground arith) in
    let (p, all) = all_recorded q rest lo_q (ground arith) in
    (p, ap (λ o. elim o [ none ↦ none | some x ↦ record_all x rest ]) e ∙ all)

summary-Summed :
    (seen : List EnhancedError) (a : Option AggregatedError)
    → Summed seen a
    → summary a ≡ (length seen, take 10 seen)
summary-Summed seen none h = ground (arith, take-nothing 10)
summary-Summed seen (some a) h = ground arith

-- A new aggregator with a logger records errors that have a trace without a panic. For each code it
-- then has counted the errors of that code and kept the first ten of them, whatever its capacity.
pub record_all-summary :
    (capacity : ℕ) (code : String) (errs : List (EnhancedError × ℕ))
    → traced errs ≡ true
    → (q : ErrorAggregator) × ((record_all (new_error_aggregator capacity true) errs ≡ some q)
        × (summary (get q.errors code) ≡ (length (of_code code errs), take 10 (of_code code errs))))
unfolding new_error_aggregator get
record_all-summary capacity code errs tr =
    let (q, runs) = all_recorded (new_error_aggregator capacity true) errs refl tr in
    (
      q,
      (
        runs,
        summary-Summed (of_code code errs) (get q.errors code)
            (all-Summed code [] (new_error_aggregator capacity true) q errs refl runs),
      ),
    )

-- The global aggregator has no logger: it panics at an error of severity ERROR or more.
global-panics :
    (err : EnhancedError) (now : ℕ)
    → severity_error ≤ err.severity
    → record_error global_error_aggregator err now ≡ none
unfolding record_error log_severe global_error_aggregator new_error_aggregator
global-panics err now h = ground arith
