-- ===== src/Batch/Partition.antt =====
-- internal/batch/processor.go: which batches the requests are handled in.
use eidola.Common.{
  ℕ, ◌≤◌, ◌<◌, ◌≡◌, refl, sym, ap, subst, ◌∙◌, inl, inr, Bool, true, false, ◌&&◌, Option, none,
  some, List, [], ◌∷◌, ◌++◌, arith, ltb, leb, ltb→lt, leb→le, Bool-cases, length, All,
  length-append,
}
use mathlib.Core.List.{append-nil, append_assoc}
use eidola.Batch.Defs.{
  Options, default_options, or_default, Error, Request, Processor, panics, handles, new_processor,
  process_batch, add_item, taken_by, handle_request, close,
}

abbrev pub joined : {A : Type 0} → List (List A) → List A
joined [] = []
joined (xs ∷ xss) = xs ++ joined xss

abbrev pub is_some {ℓ} : {A : Type ℓ} → Option A → Bool
is_some none = false
is_some (some a) = true

joined-append :
    {A : Type 0} (xss : List (List A)) (ys : List A) → joined (xss ++ ys ∷ []) ≡ joined xss ++ ys
joined-append [] ys = append-nil ys
joined-append (xs ∷ xss) ys =
    ap (λ zs. xs ++ zs) (joined-append xss ys) ∙ sym (append_assoc xs (joined xss) ys)

All-append :
    {A : Type 0} (n : ℕ) (xss : List (List A)) (ys : List A)
    → All (λ xs. length xs ≡ n) xss
    → length ys ≡ n
    → All (λ xs. length xs ≡ n) (xss ++ ys ∷ [])
All-append n [] ys h e = (e, tt)
All-append n (xs ∷ xss) ys h e = (h.0, All-append n xss ys h.1 e)

module _ {T R E : Type 0} (no_item : T) (no_result : R)
    (process : List T → List R × List (Option (Error E))) where
  -- The requests that are handled one after another, each with what its context answers; none where
  -- one panics.
  unfoldable pub handle_all :
      Processor T R E → List (Request T R E × Option E) → Option (Processor T R E)
  handle_all p [] = some p
  handle_all p ((req, ctx_err) ∷ rs) =
      elim (handle_request no_item no_result process p req ctx_err) [
        | panics ↦ none
        | handles q replies ↦ handle_all q rs
      ]

  -- The items of the requests whose contexts are not done.
  abbrev pub accepted : List (Request T R E × Option E) → List T
  accepted [] = []
  accepted ((req, none) ∷ rs) = req.item ∷ accepted rs
  accepted ((req, some e) ∷ rs) = accepted rs

  abbrev pub with_context : List (Request T R E × Option E) → Bool
  with_context [] = true
  with_context ((req, ctx_err) ∷ rs) = is_some req.context && with_context rs

  -- All batches are full, and the current one is not.
  abbrev pub Full : ℕ → Processor T R E → Type 0
  Full n p = All (λ b. length b ≡ n) p.processed × ((length p.items < n) × (p.opts.batch_size ≡ n))

  abbrev seen : Processor T R E → List T
  seen p = joined p.processed ++ p.items

  flushed :
      (p : Processor T R E)
      → 0 < length p.items
      → ((process_batch no_item no_result process p).processed ≡ p.processed ++ p.items ∷ [])
        × ((process_batch no_item no_result process p).items ≡ [])
        × ((process_batch no_item no_result process p).opts ≡ p.opts)
  unfolding process_batch
  flushed p h = (ground arith, ground arith, ground arith)

  -- A batch that is processed takes with it what has been seen.
  seen-flushed :
      (p : Processor T R E)
      → 0 < length p.items
      → seen (process_batch no_item no_result process p) ≡ seen p
  seen-flushed p h =
      let f = flushed p h in
      let q = process_batch no_item no_result process p in
      ap (λ xs. joined xs ++ q.items) f.0
      ∙ ap (λ xs. joined (p.processed ++ p.items ∷ []) ++ xs) f.1
      ∙ append-nil (joined (p.processed ++ p.items ∷ []))
      ∙ joined-append p.processed p.items

  seen-add : (p : Processor T R E) (item : T) → seen (add_item p item) ≡ seen p ++ item ∷ []
  unfolding add_item
  seen-add p item = sym (append_assoc (joined p.processed) p.items (item ∷ []))

  filled :
      (n : ℕ) (p : Processor T R E) (item : T)
      → Full n p
      → n ≤ length (add_item p item).items
      → Full n (process_batch no_item no_result process (add_item p item))
        × (seen (process_batch no_item no_result process (add_item p item)) ≡ seen p ++ item ∷ [])
  unfolding add_item
  filled n p item full le =
      let q = add_item p item in
      let size = length-append p.items (item ∷ []) in
      let f = flushed q (omega arith) in
      (
        (
          subst (All (λ b. length b ≡ n)) (sym f.0)
              (All-append n p.processed q.items full.0 (omega arith)),
          (ground arith, ground arith),
        ),
        seen-flushed q (omega arith) ∙ seen-add p item,
      )

  kept :
      (n : ℕ) (p : Processor T R E) (item : T)
      → Full n p
      → length (add_item p item).items < n
      → Full n (add_item p item) × (seen (add_item p item) ≡ seen p ++ item ∷ [])
  unfolding add_item
  kept n p item full lt = ((full.0, (lt, full.1.1)), seen-add p item)

  -- Whichever way the test for a full batch goes, the request is kept or processed.
  taken :
      (n : ℕ) (p : Processor T R E) (item : T)
      → Full n p
      → Full n (taken_by no_item no_result process p item)
        × (seen (taken_by no_item no_result process p item) ≡ seen p ++ item ∷ [])
  unfolding add_item taken_by
  taken n p item full =
      let a = add_item p item in
      let goal : Processor T R E → Type 0 = λ q. Full n q × (seen q ≡ seen p ++ item ∷ []) in
      elim (Bool-cases (leb n (length a.items))) [
        | inl enough ↦
            let same : process_batch no_item no_result process a
                ≡ taken_by no_item no_result process p item =
              ground arith in
            subst goal same (filled n p item full (leb→le n (length a.items) enough))
        | inr few ↦
            let same : a ≡ taken_by no_item no_result process p item = ground arith in
            subst goal same (kept n p item full (ground arith))
      ]

  one_handled :
      (p : Processor T R E) (req : Request T R E) (rs : List (Request T R E × Option E))
      → is_some req.context && with_context rs ≡ true
      → (handle_all p ((req, none) ∷ rs)
          ≡ handle_all (taken_by no_item no_result process p req.item) rs)
        × ((e : E) → handle_all p ((req, some e) ∷ rs) ≡ handle_all p rs)
        × (with_context rs ≡ true)
  unfolding handle_all handle_request
  one_handled p req rs h = (ground arith, (λ e. ground arith), ground arith)

  all-taken :
      (n : ℕ) (p : Processor T R E) (rs : List (Request T R E × Option E))
      → Full n p
      → with_context rs ≡ true
      → (q : Processor T R E) × ((handle_all p rs ≡ some q)
          × Full n q
          × (seen q ≡ seen p ++ accepted rs))
  unfolding handle_all
  all-taken n p [] full h = (p, (refl, full, sym (append-nil (seen p))))
  all-taken n p ((req, some e) ∷ rs) full h =
      let one = one_handled p req rs h in
      let (q, (runs, full_q, all)) = all-taken n p rs full one.2 in
      (q, (one.1 e ∙ runs, full_q, all))
  all-taken n p ((req, none) ∷ rs) full h =
      let one = one_handled p req rs h in
      let t = taken n p req.item full in
      let (q, (runs, full_q, all)) =
        all-taken n (taken_by no_item no_result process p req.item) rs t.0 one.2 in
      (
        q,
        (
          one.0 ∙ runs,
          full_q,
          all
              ∙ ap (λ xs. xs ++ accepted rs) t.1
              ∙ append_assoc (seen p) (req.item ∷ []) (accepted rs),
        ),
      )

  abbrev pub size_of : Options → ℕ
  size_of opts = or_default opts.batch_size default_options.batch_size

  new-Full : (opts : Options) → Full (size_of opts) (new_processor {T = T} {R = R} {E = E} opts)
  unfolding new_processor
  new-Full opts = (tt, (ground arith, refl))

  nothing_left :
      (p : Processor T R E) → length p.items ≡ 0 → process_batch no_item no_result process p ≡ p
  unfolding process_batch
  nothing_left p h = ground arith

  no_items : (xs : List T) → length xs ≡ 0 → xs ≡ []
  no_items [] h = refl
  no_items (x ∷ xs) h = absurd (omega arith)

  closed :
      (p : Processor T R E)
      → (joined (close no_item no_result process p).processed ≡ seen p)
        × ((close no_item no_result process p).items ≡ [])
  unfolding close
  closed p = elim (Bool-cases (ltb 0 (length p.items))) [
    | inl some_left ↦
        let f = flushed p (ltb→lt 0 (length p.items) some_left) in
        (ap joined f.0 ∙ joined-append p.processed p.items, f.1)
    | inr none_left ↦
        let zero_left : length p.items ≡ 0 = ground arith in
        let empty = no_items p.items zero_left in
        let same = nothing_left p zero_left in
        (
          ap (λ q. joined q.processed) same
              ∙ sym (append-nil (joined p.processed))
              ∙ sym (ap (λ xs. joined p.processed ++ xs) empty),
          ap (λ q. q.items) same ∙ empty,
        )
  ]

  -- A new processor handles requests that all have a context without a panic. The items of those
  -- whose context is not done are processed in the order in which they are handled, in full batches,
  -- and fewer than a batch are kept; Close processes these too.
  pub handle_all-close :
      (opts : Options) (rs : List (Request T R E × Option E))
      → with_context rs ≡ true
      → (q : Processor T R E) × ((handle_all (new_processor opts) rs ≡ some q)
          × All (λ b. length b ≡ size_of opts) q.processed
          × (length q.items < size_of opts)
          × (joined q.processed ++ q.items ≡ accepted rs)
          × (joined (close no_item no_result process q).processed ≡ accepted rs)
          × ((close no_item no_result process q).items ≡ []))
  unfolding new_processor
  handle_all-close opts rs h =
      let (q, (runs, full, all)) =
        all-taken (size_of opts) (new_processor opts) rs (new-Full opts) h in
      let c = closed q in (q, (runs, full.0, full.1.0, all, c.0 ∙ all, c.1))
