-- ===== src/RateLimit/SlideWindow.antt =====
-- ratelimit/slide_window.go. The queue holds the times of the requests that were let through, the
-- oldest first; the mutex makes a request one step.
use eidola.Common.{
  ℕ, ◌+◌, ◌≤◌, ◌≡◌, refl, ap, subst, ◌∙◌, Bool, List, [], ◌∷◌, ◌++◌, arith, ltb, leb, if◌then◌else◌,
  length, keep, length-append, length-keep-le, keep-append,
}
use eidola.RateLimit.Strategy.{
  Answer, handled, RejectStrategy, default_reject_strategy, mark_failed_strategy, on_reject,
  err_limit_exceeded,
}

pub record SlideWindowLimiter : Type 0 where
  pub queue : List ℕ
  pub interval : ℕ
  pub rate : ℕ
  pub strategy : RejectStrategy

unfoldable pub new_slide_window_limiter : ℕ → ℕ → SlideWindowLimiter
new_slide_window_limiter interval rate = record {
  queue = [];
  interval = interval;
  rate = rate;
  strategy = default_reject_strategy;
}

unfoldable pub slide_window_mark_failed : SlideWindowLimiter → SlideWindowLimiter
slide_window_mark_failed l = record l { strategy = mark_failed_strategy }

-- Not before the boundary `now - interval`.
abbrev pub recent : ℕ → ℕ → ℕ → Bool
recent interval now t = leb now (t + interval)

unfoldable pub limit : SlideWindowLimiter → ℕ → SlideWindowLimiter × Answer
limit l now =
    let queue = keep (recent l.interval now) l.queue in
    if ltb (length queue) l.rate
    then (record l { queue = queue ++ now ∷ [] }, handled)
    else (record l { queue = queue }, on_reject l.strategy)

-- The requests that a run lets through, by their times, behind those before.
abbrev logs : Answer → List ℕ → ℕ → List ℕ
logs handled log t = log ++ t ∷ []
logs _ log t = log

unfoldable pub serve : SlideWindowLimiter → List ℕ → List ℕ → SlideWindowLimiter × List ℕ
serve l log [] = (l, log)
serve l log (t ∷ ts) = let (m, a) = limit l t in serve m (logs a log t) ts

-- The times of requests in order, none before the given time; and the last of them.
abbrev pub Since : ℕ → List ℕ → Type 0
Since start [] = Unit {0}
Since start (t ∷ ts) = (start ≤ t) × Since t ts

abbrev pub last : ℕ → List ℕ → ℕ
last start [] = start
last start (t ∷ ts) = last t ts

recent-keep :
    (interval old now : ℕ) (log : List ℕ)
    → old ≤ now
    → keep (recent interval now) (keep (recent interval old) log) ≡ keep (recent interval now) log
recent-keep interval old now [] h = refl
recent-keep interval old now (t ∷ log) h = ground (arith, recent-keep interval old now log h)

-- The queue is what the log has of the window, and is no longer than the rate.
record Faithful (interval rate : ℕ) (now : ℕ) (l : SlideWindowLimiter) (log : List ℕ) : Type 0 where
  same_interval : l.interval ≡ interval
  same_rate : l.rate ≡ rate
  default_strategy : l.strategy ≡ default_reject_strategy
  within : length l.queue ≤ rate
  window : l.queue ≡ keep (recent interval now) log

module _ (interval rate : ℕ) where
  window_moves :
      (old now : ℕ) (l : SlideWindowLimiter) (log : List ℕ)
      → old ≤ now
      → Faithful interval rate old l log
      → keep (recent l.interval now) l.queue ≡ keep (recent interval now) log
  window_moves old now l log h f =
      ap (λ (i : ℕ). keep (recent i now) l.queue) f.same_interval
      ∙ (ap (keep (recent interval now)) f.window ∙ recent-keep interval old now log h)

  limit-answer :
      (old now : ℕ) (l : SlideWindowLimiter) (log : List ℕ)
      → old ≤ now
      → Faithful interval rate old l log
      → (limit l now).1 ≡ (
          if ltb (length (keep (recent interval now) log)) rate
          then handled
          else err_limit_exceeded)
  unfolding limit on_reject
  limit-answer old now l log h f =
      ground (arith, window_moves old now l log h f, ap length (window_moves old now l log h f))

  limit-Faithful :
      (old now : ℕ) (l : SlideWindowLimiter) (log : List ℕ)
      → old ≤ now
      → Faithful interval rate old l log
      → Faithful interval rate now (limit l now).0 (logs (limit l now).1 log now)
  unfolding limit on_reject
  limit-Faithful old now l log h f = ground (
    arith,
    window_moves old now l log h f,
    length-append (keep (recent l.interval now) l.queue) (now ∷ []),
    keep-append (recent interval now) log (now ∷ []),
    length-keep-le (recent l.interval now) l.queue,
  )

  serve-Faithful :
      (start : ℕ) (l : SlideWindowLimiter) (log ts : List ℕ)
      → Since start ts
      → Faithful interval rate start l log
      → Faithful interval rate (last start ts) (serve l log ts).0 (serve l log ts).1
  unfolding serve
  serve-Faithful start l log [] s f = f
  serve-Faithful start l log (t ∷ ts) s f =
      serve-Faithful t (limit l t).0 (logs (limit l t).1 log t) ts s.1
        (limit-Faithful start t l log s.0 f)

  new-Faithful :
      (start : ℕ) → Faithful interval rate start (new_slide_window_limiter interval rate) []
  unfolding new_slide_window_limiter
  new-Faithful start = ground arith

  -- After any requests in the order of their times on a new limiter, the window that ends at the
  -- last of them holds at most as many requests that were let through as the rate.
  pub serve-within :
      (ts : List ℕ)
      → Since 0 ts
      → length (
          keep
            (recent interval (last 0 ts))
            (serve (new_slide_window_limiter interval rate) [] ts).1)
        ≤ rate
  serve-within ts s =
      let f = serve-Faithful 0 (new_slide_window_limiter interval rate) [] ts s (new-Faithful 0) in
      subst (λ (q : List ℕ). length q ≤ rate) f.window f.within

  -- After any requests in the order of their times on a new limiter, the next request, not before
  -- them, is let through exactly when its window holds fewer requests that were let through than the
  -- rate, and fails with ErrLimitExceeded otherwise.
  pub limit-decides :
      (ts : List ℕ) (now : ℕ)
      → Since 0 ts
      → last 0 ts ≤ now
      → (limit (serve (new_slide_window_limiter interval rate) [] ts).0 now).1 ≡ (
          if ltb
            (length
              (keep (recent interval now) (serve (new_slide_window_limiter interval rate) [] ts).1))
            rate
          then handled
          else err_limit_exceeded)
  limit-decides ts now s h =
      limit-answer (last 0 ts) now _ _ h
        (serve-Faithful 0 (new_slide_window_limiter interval rate) [] ts s (new-Faithful 0))
