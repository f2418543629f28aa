-- ===== src/Stream/Load.antt =====
-- internal/stream/backpressure.go: what a full buffer means for SendMsg, and what the counters count.
use eidola.Common.{
  ℕ, zero, suc, ◌-◌, ◌<◌, String, ◌≡◌, refl, ap, inl, inr, Bool, false, not, ◌&&◌, Option, none,
  some, List, [], ◌∷◌, arith, str_eq, eq_iff, eq_refl, ltb, ◌==◌, if◌then◌else◌, Option-cases,
}
use eidola.Common.Int.{ℤ, pos, negsuc, increment, decrement, positive, below}
use eidola.Common.Dict.{Dict, get, assign, delete, get-assign, get-delete}
use eidola.Stream.Defs.{
  BackpressureOptions, BackpressureInterceptor, new_backpressure_interceptor, count, load,
  buffer_full, timed_out, wait, verdict, exhausted, send_as, send_msg, Event, opens, ends, begins,
  finishes, step, run, stream_opens, stream_ends, send_begins, send_ends,
}

wait-timed_out : (opts : BackpressureOptions) (polls : List ℤ) → wait opts polls ≡ timed_out
unfolding wait
wait-timed_out opts [] = refl
wait-timed_out opts (l ∷ ls) = ground (arith, wait-timed_out opts ls)

-- SendMsg into a full buffer fails and changes nothing, whether it blocks or not: blocking, it waits
-- out WaitTimeout, whatever the loads that it reads meanwhile.
pub send-full :
    {E : Type 0} (b : BackpressureInterceptor) (method : String) (polls : List ℤ) (throttled : Bool)
    (others : BackpressureInterceptor → BackpressureInterceptor) (answer : Option E)
    → below (load b method) b.opts.high_watermark ≡ false
    → below (load b method) b.opts.max_buffer_size ≡ false
    → send_msg b method polls throttled others answer
      ≡ (b, exhausted (if b.opts.block_on_full then timed_out else buffer_full))
unfolding send_msg send_as verdict
send-full b method polls throttled others answer h m = ground (arith, wait-timed_out b.opts polls)

-- For one method, how many streams are open and how many messages are being sent, where each message
-- is sent by a stream that is open until then; none where an event does not fit.
abbrev pub next : String → ℕ → ℕ → Event → Option (ℕ × ℕ)
next method streams flights (opens m) =
    if str_eq m method then some (suc streams, flights) else some (streams, flights)
next method streams flights (ends m) =
    if str_eq m method
    then if streams == 0
      then none
      else if streams == 1 && not (flights == 0)
      then none
      else some (streams - 1, flights)
    else some (streams, flights)
next method streams flights (begins m) =
    if str_eq m method
    then if streams == 0 then none else some (streams, suc flights)
    else some (streams, flights)
next method streams flights (finishes m) =
    if str_eq m method
    then if flights == 0 then none else some (streams, flights - 1)
    else some (streams, flights)

abbrev pub follow : String → ℕ → ℕ → List Event → Option (ℕ × ℕ)
follow method streams flights [] = some (streams, flights)
follow method streams flights (e ∷ es) = elim (next method streams flights e) [
  | none ↦ none
  | some (s, f) ↦ follow method s f es
]

abbrev Counts : BackpressureInterceptor → String → ℕ → ℕ → Type 0
Counts b method streams flights =
    (count b.active_streams method ≡ pos streams) × (load b method ≡ pos flights)

count-assign :
    (m : Dict ℤ) (key method : String) (n : ℤ)
    → count (assign m key n) method ≡ (if str_eq key method then n else count m method)
unfolding count
count-assign m key method n = ground (arith, get-assign m key n method)

count-delete :
    (m : Dict ℤ) (key method : String)
    → count (delete m key) method ≡ (if str_eq key method then pos 0 else count m method)
unfolding count
count-delete m key method = ground (arith, get-delete m key method)

increment-pos : (n : ℕ) → increment (pos n) ≡ pos (suc n)
unfolding increment
increment-pos n = refl

decrement-pos : (n : ℕ) → 0 < n → decrement (pos n) ≡ pos (n - 1)
unfolding decrement
decrement-pos zero h = absurd (omega arith)
decrement-pos (suc n) h = ap pos (omega arith)

positive-pos : (n : ℕ) → positive (pos n) ≡ ltb 0 n
unfolding positive
positive-pos n = refl

opens-Counts :
    (b : BackpressureInterceptor) (method m : String) (streams flights s f : ℕ)
    → Counts b method streams flights
    → next method streams flights (opens m) ≡ some (s, f)
    → Counts (stream_opens b m) method s f
unfolding stream_opens load
opens-Counts b method m streams flights s f h n = (
  ground (
    arith,
    eq_iff m method,
    count-assign b.active_streams m method (increment (count b.active_streams m)),
    increment-pos streams,
  ),
  ground arith,
)

ends-Counts :
    (b : BackpressureInterceptor) (method m : String) (streams flights s f : ℕ)
    → Counts b method streams flights
    → next method streams flights (ends m) ≡ some (s, f)
    → Counts (stream_ends b m) method s f
unfolding stream_ends load
ends-Counts b method m streams flights s f h n =
    let left = decrement (count b.active_streams m) in
    let streams_left = assign b.active_streams m left in
    let a = count-assign b.active_streams m method left in
    let d = count-delete streams_left m method in
    let l = count-delete b.current_loads m method in
    (
      ground (arith, eq_iff m method, a, d, l, decrement-pos streams, positive-pos (streams - 1)),
      ground (arith, eq_iff m method, a, d, l, decrement-pos streams, positive-pos (streams - 1)),
    )

begins-Counts :
    (b : BackpressureInterceptor) (method m : String) (streams flights s f : ℕ)
    → Counts b method streams flights
    → next method streams flights (begins m) ≡ some (s, f)
    → Counts (send_begins b m) method s f
unfolding send_begins load
begins-Counts b method m streams flights s f h n = (
  ground (arith, eq_iff m method),
  ground (
    arith,
    eq_iff m method,
    count-assign b.current_loads m method (increment (count b.current_loads m)),
    increment-pos flights,
  ),
)

finishes-Counts :
    (b : BackpressureInterceptor) (method m : String) (streams flights s f : ℕ)
    → Counts b method streams flights
    → next method streams flights (finishes m) ≡ some (s, f)
    → Counts (send_ends b m) method s f
unfolding send_ends load
finishes-Counts b method m streams flights s f h n = (
  ground (arith, eq_iff m method),
  ground (
    arith,
    eq_iff m method,
    count-assign b.current_loads m method (decrement (count b.current_loads m)),
    decrement-pos flights,
  ),
)

step-Counts :
    (b : BackpressureInterceptor) (method : String) (streams flights s f : ℕ) (e : Event)
    → Counts b method streams flights
    → next method streams flights e ≡ some (s, f)
    → Counts (step b e) method s f
unfolding step
step-Counts b method streams flights s f (opens m) h n =
    opens-Counts b method m streams flights s f h n
step-Counts b method streams flights s f (ends m) h n =
    ends-Counts b method m streams flights s f h n
step-Counts b method streams flights s f (begins m) h n =
    begins-Counts b method m streams flights s f h n
step-Counts b method streams flights s f (finishes m) h n =
    finishes-Counts b method m streams flights s f h n

run-follows :
    (b : BackpressureInterceptor) (method : String) (streams flights s f : ℕ) (es : List Event)
    → Counts b method streams flights
    → follow method streams flights es ≡ some (s, f)
    → Counts (run b es) method s f
unfolding run
run-follows b method streams flights s f [] h n = (ground arith, ground arith)
run-follows b method streams flights s f (e ∷ es) h n =
    elim (Option-cases (next method streams flights e)) [
      | inl stops ↦ absurd (ground arith)
      | inr ((s1, f1), goes) ↦
          run-follows (step b e) method s1 f1 s f es
            (step-Counts b method streams flights s1 f1 e h goes) (ground arith)
    ]

-- From a new interceptor on, if each message of a method is sent by a stream of that method that is
-- open until then, the load of the method is the number of messages being sent, whatever happens to
-- other methods.
pub run-load :
    (opts : BackpressureOptions) (method : String) (es : List Event) (streams flights : ℕ)
    → follow method 0 0 es ≡ some (streams, flights)
    → load (run (new_backpressure_interceptor opts) es) method ≡ pos flights
unfolding new_backpressure_interceptor load count get
run-load opts method es streams flights h =
    (run-follows (new_backpressure_interceptor opts) method 0 0 streams flights es (refl, refl) h).1

last_ends :
    (b : BackpressureInterceptor) (method : String)
    → count b.active_streams method ≡ pos 0
    → (stream_ends (stream_opens b method) method).current_loads ≡ delete b.current_loads method
unfolding stream_opens stream_ends increment decrement positive
last_ends b method h = ground (
  arith,
  eq_refl method,
  count-assign b.active_streams method method (increment (count b.active_streams method)),
)

-- When a stream of a method is served and ends while no other stream of the method is open and a
-- client of the same interceptor is sending a message of the method, that message is forgotten, and
-- the load is -1 once it has been sent.
end-forgets :
    (b : BackpressureInterceptor) (method : String)
    → count b.active_streams method ≡ pos 0
    → load (run b (begins method ∷ opens method ∷ ends method ∷ finishes method ∷ [])) method
      ≡ negsuc 0
unfolding run step load send_begins send_ends decrement
end-forgets b method h =
    let started = send_begins b method in
    let ended = stream_ends (stream_opens started method) method in
    ground (
      arith,
      eq_refl method,
      last_ends started method h,
      count-assign ended.current_loads method method (decrement (count ended.current_loads method)),
      count-delete started.current_loads method method,
    )
