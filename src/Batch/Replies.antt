-- ===== src/Batch/Replies.antt =====
-- internal/batch/processor.go, WaitForBatch: what becomes of the results of a batch.
use eidola.Common.{
  ℕ, suc, ◌≤◌, ◌<◌, ◌≡◌, refl, inl, inr, Bool, true, false, not, Option, none, some, List, [], ◌∷◌,
  ◌++◌, arith, ltb, Bool-cases, length, any, length-append,
}
use eidola.Batch.Defs.{
  Error, external, Request, Response, Processor, panics, handles, padded, requeue, process_batch,
  add_item, taken_by, handle_request, receive, missing_result,
}

module _ {T R E : Type 0} (no_item : T) (no_result : R)
    (process : List T → List R × List (Option (Error E))) where
  abbrev pub is_external : Option (Error E) → Bool
  is_external (some (external e)) = true
  is_external e = false

  -- A response that handleRequest sends is the error of a context: none carries a result.
  handle_request-replies :
      (p q : Processor T R E) (req : Request T R E) (ctx_err : Option E)
      (replies : List (ℕ × Response R E))
      → handle_request no_item no_result process p req ctx_err ≡ handles q replies
      → any (λ r. not (is_external r.1.err)) replies ≡ false
  unfolding handle_request
  handle_request-replies p q req ctx_err replies h = ground arith

  abbrev response_request : ℕ → R → Option (Error E) → Request T R E
  response_request i r e = record {
    item = no_item;
    index = i;
    channel = 0;
    context = none;
    result = r;
    err = e;
  }

  padded-cons :
      {A : Type 0} (n : ℕ) (a : A) (xs : List A)
      → (x : A) × ((ys : List A) × (padded (suc n) a xs ≡ x ∷ ys))
  unfolding padded
  padded-cons n a [] = (a, (padded n a [], refl))
  padded-cons n a (x ∷ xs) = (x, (padded n a xs, refl))

  -- The head of the queue stays.
  head-stays :
      (size : ℕ) (is : List ℕ) (rs : List R) (es : List (Option (Error E))) (req : Request T R E)
      (queue : List (Request T R E))
      → (rest : List (Request T R E)) × (requeue no_item size is rs es (req ∷ queue) ≡ req ∷ rest)
  unfolding requeue
  head-stays size [] rs es req queue = (queue, refl)
  head-stays size (i ∷ is) [] es req queue = (queue, refl)
  head-stays size (i ∷ is) (r ∷ rs) [] req queue = (queue, refl)
  head-stays size (i ∷ is) (r ∷ rs) (e ∷ es) req queue =
      let more = head-stays size is rs es req (queue ++ response_request i r e ∷ []) in
      let full = head-stays size is rs es req queue in
      elim (Bool-cases (ltb (suc (length queue)) size)) [
        | inl room ↦ (more.0, ground arith)
        | inr no_room ↦ (full.0, ground arith)
      ]

  requeued :
      (size i : ℕ) (is : List ℕ) (r : R) (rs : List R) (e : Option (Error E))
      (es : List (Option (Error E)))
      → 0 < size
      → (rest : List (Request T R E)) × (requeue no_item size (i ∷ is) (r ∷ rs) (e ∷ es) []
          ≡ response_request i r e ∷ rest)
  unfolding requeue
  requeued size i is r rs e es h =
      let more = head-stays size is rs es (response_request i r e) [] in (more.0, ground arith)

  snoc-cons :
      {A : Type 0} (xs : List A) (y : A) → (x : A) × ((ys : List A) × (xs ++ y ∷ [] ≡ x ∷ ys))
  snoc-cons [] y = (y, ([], refl))
  snoc-cons (x ∷ xs) y = (x, (xs ++ y ∷ [], refl))

  -- The queue after a batch of at least one item.
  batch_queues :
      (p : Processor T R E) (n i : ℕ) (is : List ℕ)
      → length p.items ≡ suc n
      → p.indices ≡ i ∷ is
      → p.queue ≡ []
      → 0 < p.opts.queue_size
      → p.opts.wait_for_batch ≡ true
      → (r : R) × ((e : Option (Error E)) × ((rest : List (Request T R E)) × ((process_batch no_item
                no_result process p).queue
              ≡ response_request i r e ∷ rest)))
  unfolding process_batch
  batch_queues p n i is len ind emp room wait =
      let (r, (rs, results)) = padded-cons n no_result (process p.items).0 in
      let (e, (es, errors)) = padded-cons n (some missing_result) (process p.items).1 in
      let (rest, first) = requeued p.opts.queue_size i is r rs e es room in
      (r, (e, (rest, ground arith)))

  -- Where callers wait for their batches, a request that completes a batch, with nothing else queued,
  -- leaves a response in the queue of the requests, and the worker that receives it panics.
  pub wait-panics :
      (p : Processor T R E) (req : Request T R E) (ctx : ℕ) (ctx_err : Option E)
      → p.opts.wait_for_batch ≡ true
      → 0 < p.opts.queue_size
      → p.queue ≡ []
      → p.opts.batch_size ≤ suc (length p.items)
      → req.context ≡ some ctx
      → (q : Processor T R E) × ((r : Request T R E) × ((rest : Processor T R E) × ((handle_request
                  no_item no_result process p req none
                ≡ handles q [])
              × (receive q ≡ some (r, rest))
              × (handle_request no_item no_result process rest r ctx_err ≡ panics))))
  unfolding handle_request taken_by add_item receive
  wait-panics p req ctx ctx_err wait room emp full con =
      let a = add_item p req.item in
      let size = length-append p.items (req.item ∷ []) in
      let (i, (is, ind)) = snoc-cons p.indices (length p.items) in
      let (r, (e, (rest, queued))) =
        batch_queues a (length p.items) i is (omega arith) ind emp room wait in
      let q = process_batch no_item no_result process a in
      (q, (response_request i r e, (record q { queue = rest }, (ground arith, ground arith, refl))))
