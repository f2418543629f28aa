-- ===== src/RateLimit/Examples.antt =====
-- ratelimit/: tests, and the theorems at concrete limiters.
use eidola.Common.{
  ℕ, ◌+◌, ◌-◌, ◌*◌, ◌≤◌, ◌≡◌, refl, true, false, List, [], ◌∷◌, arith, ltb, leb, if◌then◌else◌,
  length, keep, String, none, str_eq, ◌/◌,
}
use eidola.RateLimit.Strategy.{
  handled, handled_marked, err_limit_exceeded, mark_failed_strategy, default_reject_strategy,
  on_reject,
}
use eidola.RateLimit.FixWindow
use eidola.RateLimit.SlideWindow
use eidola.RateLimit.TokenBucket
use eidola.RateLimit.TokenBucketLimiter
use eidola.RateLimit.Adaptive
use eidola.RateLimit.Adaptive.Rates

abbrev fixed : FixWindow.FixWindowLimiter
fixed = record {
  timestamp = 100;
  interval = 50;
  rate = 2;
  cnt = 1;
  strategy = mark_failed_strategy;
}

serve-fixed :
    (FixWindow.serve fixed (101 ∷ 102 ∷ 150 ∷ [])).1 ≡ handled ∷ handled_marked ∷ handled ∷ []
unfolding FixWindow.serve FixWindow.limit on_reject
serve-fixed = refl

abbrev asked : List ℕ
asked = 10 ∷ 20 ∷ 25 ∷ 70 ∷ []

serve_sliding :
    (SlideWindow.serve (SlideWindow.new_slide_window_limiter 50 2) [] asked).1 ≡ 10 ∷ 20 ∷ 70 ∷ []
unfolding SlideWindow.serve SlideWindow.limit SlideWindow.new_slide_window_limiter on_reject
serve_sliding = refl

serve-within_example :
    length (
      keep
        (SlideWindow.recent 50 70)
        (SlideWindow.serve (SlideWindow.new_slide_window_limiter 50 2) [] asked).1)
    ≤ 2
serve-within_example = SlideWindow.serve-within 50 2 asked (omega arith)

limit-decides_example :
    (SlideWindow.limit
      (SlideWindow.serve (SlideWindow.new_slide_window_limiter 50 2) [] asked).0
      71).1
    ≡ (if ltb
          (length (
            keep
              (SlideWindow.recent 50 71)
              (SlideWindow.serve (SlideWindow.new_slide_window_limiter 50 2) [] asked).1))
          2
        then handled
        else err_limit_exceeded)
limit-decides_example = SlideWindow.limit-decides 50 2 asked 71 (omega arith) (omega arith)

-- Numbers in units of 10^-9, with products rounded up.
abbrev nanos : TokenBucket.TokenFloats ℕ
nanos = record {
  seconds = λ d. d;
  one = 1000000000;
  mul = λ a b. (a * b + 999999999) / 1000000000;
  add = λ a b. a + b;
  sub = λ a b. a - b;
  greater = λ a b. ltb b a;
  at_least = λ a b. leb b a;
}

abbrev in_small_units : ℕ → ℕ
in_small_units n = 1000000000 * n

-- Half a token per second and a bucket of three, one of which is left.
abbrev bucket : TokenBucket.TokenBucket ℕ
bucket = record { rate = 500000000; bucket_size = 3000000000; tokens = 1000000000; last_refill = 0 }

nanos-Rounds :
    TokenBucket.Rounds nanos in_small_units 1000000000 bucket.bucket_size bucket.rate 500000000
nanos-Rounds = record {
  rate-value = refl;
  greater-value = λ x y. ground arith;
  at_least-value = λ x y. ground arith;
  mul-value = λ d h. omega arith;
  add-value = λ x y h. omega arith;
  sub-value = λ x h k. omega arith;
}

abbrev three_calls : List ℕ
three_calls = 0 ∷ 1600000000 ∷ 2100000001 ∷ []

serve-bounded_example :
    in_small_units 1000000000 * (TokenBucket.serve nanos bucket three_calls).1
      + in_small_units (TokenBucket.serve nanos bucket three_calls).0.tokens
    ≤ in_small_units 1000000000
      + ((TokenBucket.serve nanos bucket three_calls).0.last_refill - 0) * 500000000
      + length three_calls * (3 * 1000000000)
serve-bounded_example =
    TokenBucket.serve-bounded nanos in_small_units 1000000000 500000000 bucket three_calls
      nanos-Rounds (omega arith)

serve-bucket : (TokenBucket.serve nanos bucket three_calls).1 ≡ 2
unfolding TokenBucket.serve TokenBucket.allow TokenBucket.refill
serve-bucket = refl

abbrev empty_limiter : TokenBucketLimiter.TokenBucketLimiter
empty_limiter = record {
  tokens = 0;
  capacity = 4;
  close_set = true;
  closed = false;
  strategy = default_reject_strategy;
}

-- Numbers as hundredths.
abbrev hundredths : String → ℕ
hundredths text =
    if str_eq text "10"
    then 1000
    else if str_eq text "100"
    then 10000
    else if str_eq text "1000"
    then 100000
    else if str_eq text "0.75"
    then 75
    else 50

abbrev exact : Adaptive.Arithmetic ℕ
exact = record {
  literal = hundredths;
  less = ltb;
  mul = λ a b. a * b / 100;
  div = λ a b. a * 100 / b;
}

-- Buckets that let three requests through.
abbrev three_each : Adaptive.Buckets ℕ ℕ
three_each = record {
  new_bucket = λ rate size now. 3;
  allow_bucket = λ bucket now. (bucket - 1, ltb 0 bucket);
  update_bucket = λ bucket rate now. bucket;
}

abbrev busy_day : List (Rates.Event String)
busy_day =
    Rates.asks_with_context 1 none 2 ∷ Rates.records 30 ∷ Rates.adjusts 40 ∷ Rates.asks 50 ∷ []

run_never_adapts_example :
    ((Rates.run_default exact three_each 0 busy_day).current_rate ≡ 10000)
    × ((Rates.run_default exact three_each 0 busy_day).response_times ≡ Adaptive.zeros 100)
run_never_adapts_example =
    Rates.run_never_adapts exact three_each 0 busy_day
      (record { high = refl; low = refl; least = refl; most = refl })
