-- ===== src/RateLimit/Strategy.antt =====
-- ratelimit/token_bucket.go: the reject strategies, which all limiters share.
use eidola.Common.{ℕ, suc, List, [], ◌∷◌}

-- What becomes of a request: the handler is called, with the context marked as rate limited or not,
-- or the request fails with ErrLimitExceeded.
pub data Answer : Type 0 where
  handled : Answer
  handled_marked : Answer
  err_limit_exceeded : Answer

pub data RejectStrategy : Type 0 where
  default_reject_strategy mark_failed_strategy : RejectStrategy

unfoldable pub on_reject : RejectStrategy → Answer
on_reject default_reject_strategy = err_limit_exceeded
on_reject mark_failed_strategy = handled_marked

-- How many of the answers are calls of the handler that the limiter let through.
abbrev pub admitted : List Answer → ℕ
admitted [] = 0
admitted (handled ∷ as') = suc (admitted as')
admitted (_ ∷ as') = admitted as'
