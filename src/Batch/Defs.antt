-- ===== src/Batch/Defs.antt =====
-- internal/batch/processor.go. A critical section of the processor's mutex and an operation on its
-- channels are functions; `processed` logs the batches that the function of the user is called with.
use eidola.Common.{
  ℕ, zero, suc, Bool, true, false, ◌||◌, Option, none, some, List, [], ◌∷◌, ◌++◌, ltb, leb, ◌==◌,
  if◌then◌else◌, length,
}

pub record Options : Type 0 where
  pub batch_size : ℕ
  pub max_latency : ℕ
  pub workers : ℕ
  pub wait_for_batch : Bool
  pub queue_size : ℕ
  pub default_timeout : ℕ

abbrev pub default_options : Options
default_options = record {
  batch_size = 100;
  max_latency = 100000000;
  workers = 5;
  wait_for_batch = false;
  queue_size = 1000;
  default_timeout = 5000000000;
}

abbrev pub or_default : ℕ → ℕ → ℕ
or_default n d = if n == 0 then d else n

-- An error of a context or of the function of the user, or one of the package.
pub data Error (E : Type 0) : Type 0 where
  external : E → Error E
  missing_result processor_closed : Error E

-- `channel` stands for respChan, and `context` for ctx: none is a nil interface.
pub record Request (T R E : Type 0) : Type 0 where
  pub item : T
  pub index : ℕ
  pub channel : ℕ
  pub context : Option ℕ
  pub result : R
  pub err : Option (Error E)

pub record Response (R E : Type 0) : Type 0 where
  pub result : R
  pub err : Option (Error E)

-- `timer` says that the timer is running, and `quit` that its channel is closed.
pub record Processor (T R E : Type 0) : Type 0 where
  pub opts : Options
  pub items : List T
  pub indices : List ℕ
  pub queue : List (Request T R E)
  pub quit : Bool
  pub timer : Bool
  pub processed : List (List T)

-- How handleRequest ends, with the responses it sends, by their channels.
pub data Handled (T R E : Type 0) : Type 0 where
  panics : Handled T R E
  handles : Processor T R E → List (ℕ × Response R E) → Handled T R E

-- The case of a select that is taken: the queue has room, the context is done, or quit is closed.
pub data Case (E : Type 0) : Type 0 where
  joins quits : Case E
  done : E → Case E

-- How far a call of Process has come.
pub data Progress (R E : Type 0) : Type 0 where
  returns : Response R E → Progress R E
  waits_for_room waits_for_response : Progress R E

-- How many elements there are to be added at the end of a list, each this one.
unfoldable pub padded : {A : Type 0} → ℕ → A → List A → List A
padded zero a xs = xs
padded (suc n) a [] = a ∷ padded n a []
padded (suc n) a (x ∷ xs) = x ∷ padded n a xs

module _ {T R E : Type 0} where
  unfoldable pub new_processor : Options → Processor T R E
  new_processor opts = record {
    opts = record {
      batch_size = or_default opts.batch_size default_options.batch_size;
      max_latency = or_default opts.max_latency default_options.max_latency;
      workers = or_default opts.workers default_options.workers;
      wait_for_batch = opts.wait_for_batch;
      queue_size = or_default opts.queue_size default_options.queue_size;
      default_timeout = or_default opts.default_timeout default_options.default_timeout;
    };
    items = [];
    indices = [];
    queue = [];
    quit = false;
    timer = false;
    processed = [];
  }

  unfoldable pub add_item : Processor T R E → T → Processor T R E
  add_item p item = record p {
    items = p.items ++ item ∷ [];
    indices = p.indices ++ length p.items ∷ [];
    timer = p.timer || length p.items == 0;
  }

  -- A worker receives the first request of the queue.
  unfoldable pub receive : Processor T R E → Option (Request T R E × Processor T R E)
  receive p = elim p.queue [ [] ↦ none | req ∷ rest ↦ some (req, record p { queue = rest }) ]

-- The zero value of R.
module _ {T R E : Type 0} (no_result : R) where
  -- The first select of Process.
  unfoldable pub submit : Processor T R E → Request T R E → Case E → Processor T R E × Progress R E
  submit p req (done e) = (p, returns (record { result = no_result; err = some (external e) }))
  submit p req quits = (p, returns (record { result = no_result; err = some processor_closed }))
  submit p req joins =
      if ltb (length p.queue) p.opts.queue_size
      then (
        record p { queue = p.queue ++ req ∷ [] },
        if p.opts.wait_for_batch
            then waits_for_response
            else returns (record { result = no_result; err = none }),
      )
      else (p, waits_for_room)

-- The zero value of T.
module _ {T R E : Type 0} (no_item : T) where
  -- The responses that processBatch puts into the queue of the requests, as far as there is room.
  unfoldable pub requeue :
      ℕ → List ℕ → List R → List (Option (Error E)) → List (Request T R E) → List (Request T R E)
  requeue size [] rs es queue = queue
  requeue size (i ∷ is) [] es queue = queue
  requeue size (i ∷ is) (r ∷ rs) [] queue = queue
  requeue size (i ∷ is) (r ∷ rs) (e ∷ es) queue =
      let full = requeue size is rs es queue in
      let more = requeue size is rs es (
        queue
        ++ record { item = no_item; index = i; channel = 0; context = none; result = r; err = e }
          ∷ []) in
      if ltb (length queue) size then more else full

-- The values zero of T and R, and the function of the user, which returns results and errors.
module _ {T R E : Type 0} (no_item : T) (no_result : R)
    (process : List T → List R × List (Option (Error E))) where
  unfoldable pub process_batch : Processor T R E → Processor T R E
  process_batch p =
      let answer = process p.items in
      let n = length p.items in
      if n == 0 then p else record p {
        items = [];
        indices = [];
        timer = false;
        processed = p.processed ++ p.items ∷ [];
        queue =
            if p.opts.wait_for_batch
            then requeue no_item p.opts.queue_size p.indices (padded n no_result answer.0)
                (padded n (some missing_result) answer.1) p.queue
            else p.queue;
      }

  -- A request whose context is not done joins the batch, which is processed if it is full.
  unfoldable pub taken_by : Processor T R E → T → Processor T R E
  unfolding add_item
  taken_by p item =
      if leb p.opts.batch_size (length (add_item p item).items)
      then process_batch (add_item p item)
      else add_item p item

  -- handleRequest, with what Err of its context, if it has one, answers.
  unfoldable pub handle_request : Processor T R E → Request T R E → Option E → Handled T R E
  handle_request p req ctx_err = elim req.context [
    | none ↦ panics
    | some ctx ↦ elim ctx_err [
      | some e ↦ handles p (
          if p.opts.wait_for_batch
          then (req.channel, record { result = no_result; err = some (external e) }) ∷ []
          else [])
      | none ↦ handles (taken_by p req.item) []
    ]
  ]

  -- Close, up to the wait for the workers.
  unfoldable pub close : Processor T R E → Processor T R E
  close p = record (process_batch p) { quit = true }
