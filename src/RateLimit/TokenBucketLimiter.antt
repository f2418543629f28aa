-- ===== src/RateLimit/TokenBucketLimiter.antt =====
-- ratelimit/token_bucket.go, TokenBucketLimiter: the channel of tokens, its producer and Close.
use eidola.Common.{
  ℕ, suc, ◌+◌, ◌-◌, ◌≤◌, ◌<◌, ◌≡◌, Bool, true, false, ◌&&◌, List, [], ◌∷◌, ◌++◌, arith, ltb,
  if◌then◌else◌,
}
use eidola.RateLimit.Strategy.{
  Answer, handled, err_limit_exceeded, RejectStrategy, default_reject_strategy,
  mark_failed_strategy, on_reject,
}

-- `close_set` says that the field close is not nil, `closed` that its channel is closed.
pub record TokenBucketLimiter : Type 0 where
  pub tokens : ℕ
  pub capacity : ℕ
  pub close_set : Bool
  pub closed : Bool
  pub strategy : RejectStrategy

unfoldable pub new_token_bucket_limiter : ℕ → TokenBucketLimiter
new_token_bucket_limiter capacity = record {
  tokens = 0;
  capacity = capacity;
  close_set = true;
  closed = false;
  strategy = default_reject_strategy;
}

unfoldable pub token_bucket_mark_failed : TokenBucketLimiter → TokenBucketLimiter
token_bucket_mark_failed l = record l { strategy = mark_failed_strategy }

-- The producer takes a tick of its ticker: a token, unless the channel is full.
unfoldable pub tick : TokenBucketLimiter → TokenBucketLimiter
tick l = if ltb l.tokens l.capacity then record l { tokens = l.tokens + 1 } else l

-- The branches of a request's select.
pub data Branch : Type 0 where
  takes_token context_done sees_close : Branch

-- Which branches are ready: `holds` says that the request has read a channel from l.close, and not
-- nil, on which a receive blocks for ever; `done` that its context is done.
unfoldable pub ready : TokenBucketLimiter → Bool → Bool → List Branch
ready l holds done =
    (if ltb 0 l.tokens then takes_token ∷ [] else [])
    ++ ((if done then context_done ∷ [] else [])
        ++ (if holds && l.closed then sees_close ∷ [] else []))

unfoldable pub limit : TokenBucketLimiter → Branch → TokenBucketLimiter × Answer
limit l takes_token = (record l { tokens = l.tokens - 1 }, handled)
limit l context_done = (l, on_reject l.strategy)
limit l sees_close = (l, err_limit_exceeded)

unfoldable pub close : TokenBucketLimiter → TokenBucketLimiter
close l = if l.close_set then record l { close_set = false; closed = true } else l

-- What happens to a limiter, one after another: a tick, a request that takes a branch, Close.
pub data Event : Type 0 where
  ticks closes : Event
  asks : Branch → Event

unfoldable pub step : TokenBucketLimiter → Event → TokenBucketLimiter
unfolding tick limit close
step l ticks = tick l
step l (asks b) = (limit l b).0
step l closes = close l

-- A request takes a token only if there is one.
abbrev Possible : TokenBucketLimiter → Event → Type 0
Possible l (asks takes_token) = 0 < l.tokens
Possible l _ = Unit {0}

abbrev pub Trace : TokenBucketLimiter → List Event → Type 0
Trace l [] = Unit {0}
Trace l (e ∷ es) = Possible l e × Trace (step l e) es

unfoldable pub run : TokenBucketLimiter → List Event → TokenBucketLimiter
run l [] = l
run l (e ∷ es) = run (step l e) es

abbrev pub count_ticks : List Event → ℕ
count_ticks [] = 0
count_ticks (ticks ∷ es) = suc (count_ticks es)
count_ticks (_ ∷ es) = count_ticks es

abbrev pub count_taken : List Event → ℕ
count_taken [] = 0
count_taken (asks takes_token ∷ es) = suc (count_taken es)
count_taken (_ ∷ es) = count_taken es

run-bounded_from :
    (l : TokenBucketLimiter) (es : List Event)
    → Trace l es
    → l.tokens ≤ l.capacity
    → (count_taken es + (run l es).tokens ≤ l.tokens + count_ticks es)
      × ((run l es).tokens ≤ l.capacity)
unfolding run step
run-bounded_from l [] p h = omega arith
run-bounded_from l (ticks ∷ es) p h = ground (arith, run-bounded_from (tick l) es p.1)
run-bounded_from l (closes ∷ es) p h = ground (arith, run-bounded_from (close l) es p.1)
run-bounded_from l (asks takes_token ∷ es) p h =
    ground (arith, run-bounded_from (record l { tokens = l.tokens - 1 }) es p.1)
run-bounded_from l (asks context_done ∷ es) p h = run-bounded_from l es p.1 h
run-bounded_from l (asks sees_close ∷ es) p h = run-bounded_from l es p.1 h

-- In every history of a new limiter the requests that took a token are at most the ticks of its
-- producer, and the tokens that are left never exceed the capacity.
run-bounded :
    (capacity : ℕ) (es : List Event)
    → Trace (new_token_bucket_limiter capacity) es
    → (count_taken es + (run (new_token_bucket_limiter capacity) es).tokens ≤ count_ticks es)
      × ((run (new_token_bucket_limiter capacity) es).tokens ≤ capacity)
unfolding new_token_bucket_limiter
run-bounded capacity es t =
    ground (arith, run-bounded_from (new_token_bucket_limiter capacity) es t (omega arith))

-- After Close on an open limiter without tokens a request that waits already is rejected, but a new
-- one whose context is not done finds no branch ready: it reads nil from the field and blocks.
close-blocks :
    (l : TokenBucketLimiter)
    → l.close_set ≡ true
    → l.tokens ≡ 0
    → (ready (close l) l.close_set false ≡ sees_close ∷ [])
      × (ready (close l) (close l).close_set false ≡ [])
unfolding ready close
close-blocks l o z = ground arith
