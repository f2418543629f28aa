-- ===== src/RateLimit/Adaptive.antt =====
-- ratelimit/adaptive_limiter.go. The float64 numbers are a type with the operations of a record, and
-- the token bucket is any with the three operations that are called. The ticker that calls
-- adjustRate is not modelled.
pub mod Rates
use eidola.Common.{
  ℕ, zero, suc, ◌+◌, ◌-◌, ◌*◌, ◌/◌, ◌%◌, ◌^◌, ◌≤◌, ◌<◌, min, String, ◌≡◌, refl, sym, ap, subst, ◌∙◌,
  ◌≢◌, ◌↔◌, ◌⊎◌, inl, inr, Bool, true, false, not, ◌&&◌, ◌||◌, Option, none, some, List, [], ◌∷◌,
  ◌++◌, map, arith, str_eq, eq_iff, eq_refl, ltb, leb, ◌==◌, if◌then◌else◌, ltb→lt, lt→ltb, leb→le,
  le→leb, Bool-cases, Option-cases, length, get_elem?, keep, any, All, length-append,
  length-keep-le, keep-append, get_elem?-some,
}

pub record Arithmetic (F : Type 0) : Type 0 where
  pub literal : String → F
  pub less : F → F → Bool
  pub mul : F → F → F
  pub div : F → F → F

pub record Buckets (B F : Type 0) : Type 0 where
  pub new_bucket : F → F → ℕ → B
  pub allow_bucket : B → ℕ → B × Bool
  pub update_bucket : B → F → ℕ → B

pub record AdaptiveLimiterOptions (F : Type 0) : Type 0 where
  pub initial_rate : F
  pub min_rate : F
  pub max_rate : F
  pub high_load_threshold : F
  pub low_load_threshold : F
  pub decrease_factor_on_heavy_load : F
  pub increase_factor_on_light_load : F
  pub response_time_threshold : ℕ
  pub response_time_sample_size : ℕ
  pub sampling_interval : ℕ
  pub reject_on_overload : Bool
  pub window_size : ℕ

pub record LimiterStats (F : Type 0) : Type 0 where
  pub allowed_requests : ℕ
  pub rejected_requests : ℕ
  pub stats_rate : F

-- The count of rejects is an int32, as its bits.
pub record AdaptiveLimiter (B F : Type 0) : Type 0 where
  pub opts : AdaptiveLimiterOptions F
  pub current_rate : F
  pub token_bucket : B
  pub response_times : List ℕ
  pub response_time_index : ℕ
  pub last_sample_time : ℕ
  pub consecutive_rejects : ℕ
  pub stats : LimiterStats F

pub data AdaptiveError (E : Type 0) : Type 0 where
  err_limit_exceeded : AdaptiveError E
  err_context : E → AdaptiveError E

unfoldable pub zeros : ℕ → List ℕ
zeros zero = []
zeros (suc n) = 0 ∷ zeros n

unfoldable pub set_elem : List ℕ → ℕ → ℕ → List ℕ
set_elem [] i x = []
set_elem (y ∷ ys) zero x = x ∷ ys
set_elem (y ∷ ys) (suc i) x = y ∷ set_elem ys i x

unfoldable pub sum_times : List ℕ → ℕ
sum_times [] = 0
sum_times (t ∷ ts) = t + sum_times ts

-- The average of the response times that are not 0.
unfoldable pub average : List ℕ → ℕ
average ts =
    let taken = keep (ltb 0) ts in
    if ltb 0 (length taken) then sum_times taken / length taken else 0

module _ {F : Type 0} (floats : Arithmetic F) where
  abbrev pub default_adaptive_limiter_options : AdaptiveLimiterOptions F
  default_adaptive_limiter_options = record {
    initial_rate = floats.literal "100";
    min_rate = floats.literal "10";
    max_rate = floats.literal "1000";
    high_load_threshold = floats.literal "0.75";
    low_load_threshold = floats.literal "0.50";
    decrease_factor_on_heavy_load = floats.literal "0.9";
    increase_factor_on_light_load = floats.literal "1.1";
    response_time_threshold = 100000000;
    response_time_sample_size = 100;
    sampling_interval = 5000000000;
    reject_on_overload = true;
    window_size = 500;
  }

  abbrev pub get_cpu_usage : F
  get_cpu_usage = floats.literal "0.5"

  -- The rate for a load and an average response time, before the limits and after.
  unfoldable pub scaled_rate : AdaptiveLimiterOptions F → F → ℕ → F → F
  scaled_rate opts cpu_usage avg current =
      if floats.less opts.high_load_threshold cpu_usage
      then floats.mul current opts.decrease_factor_on_heavy_load
      else if floats.less cpu_usage opts.low_load_threshold && ltb avg opts.response_time_threshold
      then floats.mul current opts.increase_factor_on_light_load
      else current

  unfoldable pub slowed_rate : AdaptiveLimiterOptions F → ℕ → F → F
  slowed_rate opts avg rate =
      if ltb opts.response_time_threshold avg then floats.mul rate (floats.literal "0.95") else rate

  unfoldable pub limited_rate : AdaptiveLimiterOptions F → F → F
  limited_rate opts rate =
      if floats.less rate opts.min_rate
      then opts.min_rate
      else if floats.less opts.max_rate rate
      then opts.max_rate
      else rate

  unfoldable pub next_rate : AdaptiveLimiterOptions F → F → ℕ → F → F
  next_rate opts cpu_usage avg current =
      limited_rate opts (slowed_rate opts avg (scaled_rate opts cpu_usage avg current))

module _ {B F : Type 0} (floats : Arithmetic F) (buckets : Buckets B F) where
  unfoldable pub new_adaptive_limiter : AdaptiveLimiterOptions F → ℕ → AdaptiveLimiter B F
  new_adaptive_limiter given now =
      let sized = record given {
        window_size = if given.window_size == 0 then 500 else given.window_size;
        response_time_sample_size =
            if given.response_time_sample_size == 0 then 100 else given.response_time_sample_size;
      } in
      record {
        opts = sized;
        current_rate = sized.initial_rate;
        token_bucket =
            buckets.new_bucket sized.initial_rate
              (floats.div sized.initial_rate (floats.literal "10.0")) now;
        response_times = zeros sized.response_time_sample_size;
        response_time_index = 0;
        last_sample_time = now;
        consecutive_rejects = 0;
        stats = record {
          allowed_requests = 0;
          rejected_requests = 0;
          stats_rate = sized.initial_rate;
        };
      }

  unfoldable pub allow : AdaptiveLimiter B F → ℕ → AdaptiveLimiter B F × Bool
  allow l now =
      let (bucket, allowed) = buckets.allow_bucket l.token_bucket now in
      if allowed
      then (
        record l {
          token_bucket = bucket;
          stats = record l.stats {
            allowed_requests = suc l.stats.allowed_requests % 2 ^ 64;
            stats_rate = l.current_rate;
          };
        },
        true,
      )
      else (
        record l {
          token_bucket = bucket;
          stats = record l.stats { rejected_requests = suc l.stats.rejected_requests % 2 ^ 64 };
          consecutive_rejects = suc l.consecutive_rejects % 2 ^ 32;
        },
        false,
      )

  -- Where a rejected request waits, `ends` is the error of the context if it ends first, and `later`
  -- the time of the second try. The context with the start time is a local variable of the source:
  -- the caller does not get it.
  unfoldable pub allow_with_context :
      {E : Type 0}
      → AdaptiveLimiter B F
      → ℕ
      → Option E
      → ℕ
      → AdaptiveLimiter B F × Option (AdaptiveError E)
  unfolding allow
  allow_with_context l now ends later =
      let (first, allowed) = allow l now in
      let (second, allowed_later) = allow first later in
      if allowed
      then (first, none)
      else if l.opts.reject_on_overload
      then (first, some err_limit_exceeded)
      else elim ends [
        | some e ↦ (first, some (err_context e))
        | none ↦ if allowed_later then (second, none) else (second, some err_limit_exceeded)
      ]

  -- `start` is the start time that the context has.
  unfoldable pub record_metrics : AdaptiveLimiter B F → Option ℕ → ℕ → AdaptiveLimiter B F
  record_metrics l none now = l
  record_metrics l (some start) now = record l {
    response_times = set_elem l.response_times l.response_time_index (now - start);
    response_time_index = suc l.response_time_index % length l.response_times;
  }

  unfoldable pub adjust_rate : AdaptiveLimiter B F → ℕ → AdaptiveLimiter B F
  unfolding next_rate
  adjust_rate l now =
      let rate =
        next_rate floats l.opts (get_cpu_usage floats) (average l.response_times) l.current_rate in
      record l {
        current_rate = rate;
        token_bucket = buckets.update_bucket l.token_bucket rate now;
        consecutive_rejects = 0;
      }

  unfoldable pub get_stats : AdaptiveLimiter B F → LimiterStats F
  get_stats l = record l.stats { stats_rate = l.current_rate }
