-- ===== src/RateLimit/FixWindow.antt =====
-- ratelimit/fix_window.go: one request after another. Times are nanoseconds.
use eidola.Common.{
  ℕ, ◌+◌, ◌-◌, ◌≤◌, ◌<◌, min, ◌≡◌, refl, List, [], ◌∷◌, arith, ltb, leb, if◌then◌else◌, length, All,
}
use eidola.RateLimit.Strategy.{
  Answer, handled, RejectStrategy, default_reject_strategy, mark_failed_strategy, on_reject,
  admitted,
}

pub record FixWindowLimiter : Type 0 where
  pub timestamp : ℕ
  pub interval : ℕ
  pub rate : ℕ
  pub cnt : ℕ
  pub strategy : RejectStrategy

unfoldable pub new_fix_window_limiter : ℕ → ℕ → ℕ → FixWindowLimiter
new_fix_window_limiter interval rate now = record {
  timestamp = now;
  interval = interval;
  rate = rate;
  cnt = 0;
  strategy = default_reject_strategy;
}

unfoldable pub fix_window_mark_failed : FixWindowLimiter → FixWindowLimiter
fix_window_mark_failed l = record l { strategy = mark_failed_strategy }

-- The reset of an expired window: the compare-and-swap succeeds, as no other request runs.
unfoldable pub refresh : FixWindowLimiter → ℕ → FixWindowLimiter
refresh l now =
    if leb (l.timestamp + l.interval) now then record l { timestamp = now; cnt = 0 } else l

unfoldable pub limit : FixWindowLimiter → ℕ → FixWindowLimiter × Answer
unfolding refresh
limit l now =
    let r = refresh l now in
    let c = record r { cnt = r.cnt + 1 } in
    (c, (if ltb c.rate c.cnt then on_reject c.strategy else handled))

unfoldable pub serve : FixWindowLimiter → List ℕ → FixWindowLimiter × List Answer
serve l [] = (l, [])
serve l (t ∷ ts) = let (m, a) = limit l t in let (n, as') = serve m ts in (n, a ∷ as')

abbrev pub InWindow : ℕ → List ℕ → Type 0
InWindow end = All (λ t. t < end)

limit_inside :
    (l : FixWindowLimiter) (t : ℕ)
    → t < l.timestamp + l.interval
    → ((limit l t).0 ≡ record l { cnt = l.cnt + 1 })
      × ((limit l t).1 ≡ (if ltb l.rate (l.cnt + 1) then on_reject l.strategy else handled))
unfolding limit
limit_inside l t h = ground arith

admitted-on_reject :
    (s : RejectStrategy) (as' : List Answer) → admitted (on_reject s ∷ as') ≡ admitted as'
unfolding on_reject
admitted-on_reject default_reject_strategy as' = refl
admitted-on_reject mark_failed_strategy as' = refl

-- Of requests one after another within the window of a limiter, just as many are let through as the
-- rate has left for this window, or all of them if they are fewer.
serve-admitted :
    (l : FixWindowLimiter) (ts : List ℕ)
    → InWindow (l.timestamp + l.interval) ts
    → admitted (serve l ts).1 ≡ min (length ts) (l.rate - l.cnt)
unfolding serve
serve-admitted l [] h = omega arith
serve-admitted l (t ∷ ts) h =
    let (state, answer) = limit_inside l t h.0 in
    let rest = serve-admitted (record l { cnt = l.cnt + 1 }) ts h.1 in
    rw (state, answer)
      (ground
        (arith, rest, admitted-on_reject l.strategy (serve (record l { cnt = l.cnt + 1 }) ts).1))

-- The first request at or after the end of the window begins a new one at its own time, with
-- itself counted, and it is let through if the rate is positive.
limit-renews :
    (l : FixWindowLimiter) (now : ℕ)
    → l.timestamp + l.interval ≤ now
    → 0 < l.rate
    → limit l now ≡ (record l { timestamp = now; cnt = 1 }, handled)
unfolding limit
limit-renews l now h r = ground arith
