-- ===== src/RateLimit/TokenBucket.antt =====
-- ratelimit/token_bucket.go, TokenBucket. F is the type of the float64 numbers that are not negative,
-- with the operations that the code calls on them. The mutex makes a call one step.
use eidola.Common.{
  ℕ, suc, ◌+◌, ◌-◌, ◌*◌, ◌≤◌, ◌<◌, ◌≡◌, refl, ap, Bool, true, false, List, [], ◌∷◌, arith, ltb, leb,
  if◌then◌else◌, length,
}

-- `seconds d` is Seconds of the duration of d nanoseconds, and `one` the literal 1.0.
pub record TokenFloats (F : Type 0) : Type 0 where
  pub seconds : ℕ → F
  pub one : F
  pub mul : F → F → F
  pub add : F → F → F
  pub sub : F → F → F
  pub greater : F → F → Bool
  pub at_least : F → F → Bool

pub record TokenBucket (F : Type 0) : Type 0 where
  pub rate : F
  pub bucket_size : F
  pub tokens : F
  pub last_refill : ℕ

-- What float64 promises of these operations, for a bucket with the given size and rate. `value` is
-- the number that a float64 stands for, exactly, in a unit so small that all values are whole, and
-- `rate` how many units the rate is in a nanosecond. `err` bounds the error by rounding of the new
-- tokens, of the sum with those held, and of the difference, where these are at most the bucket size.
pub record Rounds {F : Type 0} (floats : TokenFloats F) (value : F → ℕ) (err : ℕ) (size rate_of : F)
    (rate : ℕ) : Type 0 where
  pub rate-value : value rate_of ≡ 1000000000 * rate
  pub greater-value : (x y : F) → floats.greater x y ≡ ltb (value y) (value x)
  pub at_least-value : (x y : F) → floats.at_least x y ≡ leb (value y) (value x)
  pub mul-value :
      (d : ℕ)
      → d * rate < value size
      → value (floats.mul (floats.seconds d) rate_of) ≤ d * rate + err
  pub add-value :
      (x y : F) → value x + value y < value size → value (floats.add x y) ≤ value x + value y + err
  pub sub-value :
      (x : F)
      → value floats.one ≤ value x
      → value x ≤ value size
      → value (floats.sub x floats.one) + value floats.one ≤ value x + err

-- The times are in order, from the last refill on.
abbrev pub Since : ℕ → List ℕ → Type 0
Since start [] = Unit {0}
Since start (t ∷ ts) = (start ≤ t) × Since t ts

module _ {F : Type 0} where
  unfoldable pub new_token_bucket : F → F → ℕ → TokenBucket F
  new_token_bucket rate bucket_size now = record {
    rate = rate;
    bucket_size = bucket_size;
    tokens = bucket_size;
    last_refill = now;
  }

module _ {F : Type 0} (floats : TokenFloats F) where
  unfoldable pub refill : TokenBucket F → ℕ → TokenBucket F
  refill tb now =
      let new_tokens = floats.mul (floats.seconds (now - tb.last_refill)) tb.rate in
      let tokens = floats.add tb.tokens new_tokens in
      record tb {
        last_refill = now;
        tokens = if floats.greater tokens tb.bucket_size then tb.bucket_size else tokens;
      }

  unfoldable pub allow : TokenBucket F → ℕ → TokenBucket F × Bool
  allow tb now =
      let r = refill tb now in
      if floats.at_least r.tokens floats.one
      then (record r { tokens = floats.sub r.tokens floats.one }, true)
      else (r, false)

  unfoldable pub update_rate : TokenBucket F → F → ℕ → TokenBucket F
  update_rate tb new_rate now = record (refill tb now) { rate = new_rate }

  -- Calls of Allow at the given times: the bucket and the number of requests let through.
  unfoldable pub serve : TokenBucket F → List ℕ → TokenBucket F × ℕ
  serve tb [] = (tb, 0)
  serve tb (t ∷ ts) =
      let (b, ok) = allow tb t in let (c, n) = serve b ts in (c, (if ok then suc n else n))

spend_step :
    (one n : ℕ) (ok : Bool) → one * (if ok then suc n else n) ≡ (if ok then one else 0) + one * n
spend_step one n true = omega arith
spend_step one n false = omega arith

elapsed_split : (r s t u : ℕ) → s ≤ t → t ≤ u → (u - s) * r ≡ (t - s) * r + (u - t) * r
elapsed_split r s t u h k =
    let parts : u - s ≡ (t - s) + (u - t) = omega arith in
    omega (arith, ap (λ (x : ℕ). x * r) parts)

-- What is in a bucket of this size with `held`, when `gain` comes in, as `got`, and makes `sum`.
capped_lem :
    (held gain got sum size err : ℕ)
    → (gain < size → got ≤ gain + err)
    → (held + got < size → sum ≤ held + got + err)
    → ((if ltb size sum then size else sum) ≤ held + gain + 2 * err)
      × ((if ltb size sum then size else sum) ≤ size)
capped_lem held gain got sum size err h k = ground arith

module _ {F : Type 0} (floats : TokenFloats F) (value : F → ℕ) (err : ℕ) (size rate_of : F)
    (rate : ℕ) (rounds : Rounds floats value err size rate_of rate) where
  -- A bucket with the size and the rate that the promises are about.
  abbrev pub Matches : TokenBucket F → Type 0
  Matches tb = (tb.bucket_size ≡ size) × (tb.rate ≡ rate_of)

  value-refill :
      (tb : TokenBucket F) (now : ℕ)
      → Matches tb
      → let got = floats.mul (floats.seconds (now - tb.last_refill)) rate_of in
        let sum = floats.add tb.tokens got in
        value (refill floats tb now).tokens
        ≡ (if ltb (value size) (value sum) then value size else value sum)
  unfolding refill
  value-refill tb now (es, er) =
      let got = floats.mul (floats.seconds (now - tb.last_refill)) rate_of in
      ground (arith, rounds.greater-value (floats.add tb.tokens got) size)

  refill_lem :
      (tb : TokenBucket F) (now : ℕ)
      → Matches tb
      → (value (refill floats tb now).tokens
          ≤ value tb.tokens + (now - tb.last_refill) * rate + 2 * err)
        × (value (refill floats tb now).tokens ≤ value size)
        × Matches (refill floats tb now)
        × ((refill floats tb now).last_refill ≡ now)
  unfolding refill
  refill_lem tb now m =
      let d = now - tb.last_refill in
      let got = floats.mul (floats.seconds d) rate_of in
      let (gained, within) =
        capped_lem (value tb.tokens) (d * rate) (value got) (value (floats.add tb.tokens got))
          (value size) err (rounds.mul-value d) (rounds.add-value tb.tokens got) in
      let is = value-refill tb now m in
      (omega (arith, gained, is), omega (arith, within, is), m, refl)

  allow_lem :
      (tb : TokenBucket F) (now : ℕ)
      → Matches tb
      → ((if (allow floats tb now).1 then value floats.one else 0)
            + value (allow floats tb now).0.tokens
          ≤ value tb.tokens + (now - tb.last_refill) * rate + 3 * err)
        × Matches (allow floats tb now).0
        × ((allow floats tb now).0.last_refill ≡ now)
  unfolding allow
  allow_lem tb now m =
      let r = refill floats tb now in
      let (gained, within, kept, at) = refill_lem tb now m in
      ground (
        arith,
        gained,
        within,
        rounds.at_least-value r.tokens floats.one,
        rounds.sub-value r.tokens,
      )

  serve-bounded_at :
      (s : ℕ) (tb : TokenBucket F) (ts : List ℕ)
      → Matches tb
      → tb.last_refill ≡ s
      → Since s ts
      → (s ≤ (serve floats tb ts).0.last_refill)
        × (value floats.one * (serve floats tb ts).1 + value (serve floats tb ts).0.tokens
            ≤ value tb.tokens
              + ((serve floats tb ts).0.last_refill - s) * rate
              + length ts * (3 * err))
  unfolding serve
  serve-bounded_at s tb [] m f h = omega arith
  serve-bounded_at s tb (t ∷ ts) m f h =
      let b = (allow floats tb t).0 in
      let (spent, kept, at) = allow_lem tb t m in
      let (later, rest) = serve-bounded_at t b ts kept at h.1 in
      let gained : (t - tb.last_refill) * rate ≡ (t - s) * rate = rw f in
      (
        omega (arith, later, h.0),
        omega (
          arith,
          spent,
          rest,
          gained,
          spend_step (value floats.one) (serve floats b ts).1 (allow floats tb t).1,
          elapsed_split rate s t (serve floats b ts).0.last_refill h.0 later,
        ),
      )

-- Calls of Allow in the order of their times let through at most as many requests as the tokens in
-- the bucket at the first and those that the rate yields until the last call pay for, up to three
-- errors by rounding a call: for float64 numbers that are not negative, whose operations are exact up
-- to such an error where the result is at most the bucket size.
pub serve-bounded :
    {F : Type 0} (floats : TokenFloats F) (value : F → ℕ) (err rate : ℕ) (tb : TokenBucket F)
    (ts : List ℕ)
    → Rounds floats value err tb.bucket_size tb.rate rate
    → Since tb.last_refill ts
    → value floats.one * (serve floats tb ts).1 + value (serve floats tb ts).0.tokens
      ≤ value tb.tokens
        + ((serve floats tb ts).0.last_refill - tb.last_refill) * rate
        + length ts * (3 * err)
serve-bounded floats value err rate tb ts rounds s =
    (serve-bounded_at floats value err tb.bucket_size tb.rate rate rounds tb.last_refill tb ts
      (refl, refl) refl s).1
