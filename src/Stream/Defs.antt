-- ===== src/Stream/Defs.antt =====
-- internal/stream/backpressure.go. Each critical section of the interceptor's mutex is a function;
-- SendMsg of the two kinds of stream is the same but for its messages.
use eidola.Common.{ℕ, String, Bool, not, Option, none, some, List, [], ◌∷◌, if◌then◌else◌}
use eidola.Common.Int.{ℤ, pos, increment, decrement, positive, below}
use eidola.Common.Dict.{Dict, get, assign, delete}

-- `high_watermark` is int(float64(MaxBufferSize) * HighWatermarkPct).
pub record BackpressureOptions : Type 0 where
  pub max_buffer_size : ℕ
  pub high_watermark : ℕ
  pub block_on_full : Bool

pub record BackpressureInterceptor : Type 0 where
  pub opts : BackpressureOptions
  pub current_loads : Dict ℤ
  pub active_streams : Dict ℤ

unfoldable pub new_backpressure_interceptor : BackpressureOptions → BackpressureInterceptor
new_backpressure_interceptor opts = record { opts = opts; current_loads = []; active_streams = [] }

-- m[method] of a map of counters: 0 if it is missing.
unfoldable pub count : Dict ℤ → String → ℤ
count m method = elim (get m method) [ none ↦ pos 0 | some n ↦ n ]

unfoldable pub load : BackpressureInterceptor → String → ℤ
load b method = count b.current_loads method

unfoldable pub stream_opens : BackpressureInterceptor → String → BackpressureInterceptor
stream_opens b method = record b {
  active_streams = assign b.active_streams method (increment (count b.active_streams method));
}

unfoldable pub stream_ends : BackpressureInterceptor → String → BackpressureInterceptor
stream_ends b method =
    let left = decrement (count b.active_streams method) in
    let streams = assign b.active_streams method left in
    if not (positive left)
    then record b {
      active_streams = delete streams method;
      current_loads = delete b.current_loads method;
    }
    else record b { active_streams = streams }

unfoldable pub send_begins : BackpressureInterceptor → String → BackpressureInterceptor
send_begins b method = record b {
  current_loads = assign b.current_loads method (increment (count b.current_loads method));
}

unfoldable pub send_ends : BackpressureInterceptor → String → BackpressureInterceptor
send_ends b method = record b {
  current_loads = assign b.current_loads method (decrement (count b.current_loads method));
}

-- What SendMsg does before it sends: it goes on, at once or after a delay, or fails.
pub data Verdict : Type 0 where
  goes_on delays : Verdict
  buffer_full timed_out : Verdict

-- The loop of the blocking mode, over the loads that it reads until WaitTimeout has passed. The break
-- leaves the select only.
unfoldable pub wait : BackpressureOptions → List ℤ → Verdict
wait opts [] = timed_out
wait opts (l ∷ ls) = let rest = wait opts ls in if below l opts.high_watermark then rest else rest

unfoldable pub verdict : BackpressureOptions → ℤ → List ℤ → Bool → Verdict
verdict opts current_load polls throttled =
    if not (below current_load opts.high_watermark)
    then if not (below current_load opts.max_buffer_size)
      then if opts.block_on_full then wait opts polls else buffer_full
      else if throttled
      then delays
      else goes_on
    else goes_on

-- The answer of SendMsg: an error of its own, or the answer of the stream that it wraps.
pub data Sent (E : Type 0) : Type 0 where
  exhausted : Verdict → Sent E
  sent : Option E → Sent E

module _ {E : Type 0} where
  -- A call of SendMsg, with what the other goroutines do to the interceptor while it sends.
  unfoldable pub send_as :
      BackpressureInterceptor
      → String
      → (BackpressureInterceptor → BackpressureInterceptor)
      → Option E
      → Verdict
      → BackpressureInterceptor × Sent E
  send_as b method others answer buffer_full = (b, exhausted buffer_full)
  send_as b method others answer timed_out = (b, exhausted timed_out)
  send_as b method others answer goes_on =
      (send_ends (others (send_begins b method)) method, sent answer)
  send_as b method others answer delays =
      (send_ends (others (send_begins b method)) method, sent answer)

  unfoldable pub send_msg :
      BackpressureInterceptor
      → String
      → List ℤ
      → Bool
      → (BackpressureInterceptor → BackpressureInterceptor)
      → Option E
      → BackpressureInterceptor × Sent E
  send_msg b method polls throttled others answer =
      send_as b method others answer (verdict b.opts (load b method) polls throttled)

-- A critical section of some goroutine.
pub data Event : Type 0 where
  opens ends begins finishes : String → Event

unfoldable pub step : BackpressureInterceptor → Event → BackpressureInterceptor
unfolding stream_opens stream_ends send_begins send_ends
step b (opens method) = stream_opens b method
step b (ends method) = stream_ends b method
step b (begins method) = send_begins b method
step b (finishes method) = send_ends b method

unfoldable pub run : BackpressureInterceptor → List Event → BackpressureInterceptor
run b [] = b
run b (e ∷ es) = run (step b e) es
