-- ===== src/Retry/Budget.antt =====
-- internal/retry/retry.go, Budget. Each method is one step; the ratio of float64 numbers that
-- CanRetry compares is a test of the record Floats.
use eidola.Common.{ℕ, zero, suc, ◌+◌, Bool, not, ◌&&◌, ltb}
use eidola.Common.Int.{ℤ, pos, increment, decrement, below}

-- What the package does with float64 numbers. `tenths n` is the literal n/10; `reached a b r` is
-- float64(a)/float64(b) >= r; `backoff d n` is time.Duration(float64(d) * math.Pow(2, float64(n)));
-- `jitter u f d` is time.Duration(u * f * float64(d)); `grow f t` is time.Duration(float64(t) * f).
pub record Floats (F : Type 0) : Type 0 where
  pub tenths : ℕ → F
  pub reached : ℕ → ℕ → F → Bool
  pub backoff : ℕ → ℕ → ℤ
  pub jitter : F → F → ℤ → ℤ
  pub grow : F → ℕ → ℕ

pub record Budget (F : Type 0) : Type 0 where
  pub max_concurrent_retries : ℕ
  pub current_retries : ℤ
  pub max_retry_ratio : F
  pub total_requests : ℕ
  pub retried_requests : ℕ

module _ {F : Type 0} (floats : Floats F) where
  unfoldable pub default_budget : Budget F
  default_budget = record {
    max_concurrent_retries = 100;
    current_retries = pos 0;
    max_retry_ratio = floats.tenths 1;
    total_requests = 0;
    retried_requests = 0;
  }

  unfoldable pub can_retry : Budget F → Bool
  can_retry b =
      below b.current_retries b.max_concurrent_retries
      && not (
          ltb 0 b.total_requests
          && floats.reached b.retried_requests b.total_requests b.max_retry_ratio)

module _ {F : Type 0} where
  unfoldable pub register_request : Budget F → Budget F
  register_request b = record b { total_requests = b.total_requests + 1 }

  unfoldable pub register_retry : Budget F → Budget F
  register_retry b = record b {
    current_retries = increment b.current_retries;
    retried_requests = b.retried_requests + 1;
  }

  unfoldable pub release_retry : Budget F → Budget F
  release_retry b = record b { current_retries = decrement b.current_retries }

  -- The deferred calls of ReleaseRetry of a request that retried n times.
  unfoldable pub release_retries : ℕ → Budget F → Budget F
  unfolding release_retry
  release_retries zero b = b
  release_retries (suc n) b = release_retry (release_retries n b)
