-- ===== src/Batch/Examples.antt =====
-- internal/batch/: witnesses and tests.
use eidola.Common.{
  ℕ, ◌+◌, ◌<◌, String, ◌≡◌, refl, true, Option, none, some, List, [], ◌∷◌, ◌++◌, map, arith, length,
  All,
}
use eidola.Batch.Defs.{
  Error, Options, Processor, Request, add_item, close, default_options, handle_request, handles,
  new_processor, panics, process_batch, receive, taken_by,
}
use eidola.Batch.Partition.{joined, handle_all, handle_all-close}
use eidola.Batch.Replies.{wait-panics}

abbrev doubled : List ℕ → List ℕ × List (Option (Error String))
doubled xs = (map (λ x. x + x) xs, map (λ x. none) xs)

abbrev pairs : Options
pairs = record default_options { batch_size = 2 }

abbrev waiting : Options
waiting = record pairs { wait_for_batch = true }

abbrev request : ℕ → Request ℕ ℕ String
request n = record { item = n; index = 0; channel = n; context = some 1; result = 0; err = none }

abbrev requests : List (Request ℕ ℕ String × Option String)
requests =
    (request 3, none) ∷ (request 4, some "canceled") ∷ (request 5, none) ∷ (request 6, none) ∷ []

abbrev fresh : Options → Processor ℕ ℕ String
fresh opts = new_processor opts

batches_of_two :
    handle_all 0 0 doubled (fresh pairs) requests
    ≡ some (record (fresh pairs) {
      items = 6 ∷ [];
      indices = 0 ∷ [];
      timer = true;
      processed = (3 ∷ 5 ∷ []) ∷ [];
    })
unfolding handle_all handle_request taken_by add_item process_batch new_processor
batches_of_two = refl

handle_all-close_example :
    (q : Processor ℕ ℕ String) × ((handle_all 0 0 doubled (fresh pairs) requests ≡ some q)
      × All (λ b. length b ≡ 2) q.processed
      × (length q.items < 2)
      × (joined q.processed ++ q.items ≡ 3 ∷ 5 ∷ 6 ∷ [])
      × (joined (close 0 0 doubled q).processed ≡ 3 ∷ 5 ∷ 6 ∷ [])
      × ((close 0 0 doubled q).items ≡ []))
handle_all-close_example = handle_all-close 0 0 doubled pairs requests refl

abbrev one_short : Processor ℕ ℕ String
one_short = record (fresh waiting) { items = 3 ∷ []; indices = 0 ∷ []; timer = true }

wait-panics_example :
    (q : Processor ℕ ℕ String) × ((r : Request ℕ ℕ String) × ((rest : Processor ℕ ℕ String)
        × ((handle_request 0 0 doubled one_short (request 5) none ≡ handles q [])
            × (receive q ≡ some (r, rest))
            × (handle_request 0 0 doubled rest r none ≡ panics))))
unfolding new_processor
wait-panics_example =
    wait-panics 0 0 doubled one_short (request 5) 1 none refl (omega arith) refl (omega arith) refl
