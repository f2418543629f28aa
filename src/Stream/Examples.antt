-- ===== src/Stream/Examples.antt =====
-- internal/stream/: witnesses and tests.
use eidola.Common.{String, ◌≡◌, refl, true, false, none, List, [], ◌∷◌}
use eidola.Common.Int.{pos, below}
use eidola.Common.Dict.{get}
use eidola.Stream.Defs.{
  BackpressureInterceptor, BackpressureOptions, Event, begins, count, ends, exhausted, finishes,
  load, new_backpressure_interceptor, opens, run, send_as, send_msg, sent, timed_out, verdict,
}
use eidola.Stream.Load.{send-full, run-load}

abbrev small : BackpressureOptions
small = record { max_buffer_size = 2; high_watermark = 1; block_on_full = true }

-- Two messages are being sent, of two.
abbrev full : BackpressureInterceptor
full = record (new_backpressure_interceptor small) {
  current_loads = record { key = "/a/b"; value = pos 2 } ∷ [];
}

send-full_example :
    send_msg {E = String} full "/a/b" (pos 1 ∷ pos 0 ∷ pos 0 ∷ []) false (λ b. b) none
    ≡ (full, exhausted timed_out)
unfolding load count below get new_backpressure_interceptor
send-full_example = send-full full "/a/b" (pos 1 ∷ pos 0 ∷ pos 0 ∷ []) false (λ b. b) none refl refl

delayed :
    (send_msg {E = String}
      (record full { current_loads = record { key = "/a/b"; value = pos 1 } ∷ [] })
      "/a/b"
      []
      true
      (λ b. b)
      none).1
    ≡ sent none
unfolding send_msg send_as verdict load count below get new_backpressure_interceptor
delayed = refl

abbrev served : List Event
served =
    opens "/a/b"
    ∷ begins "/a/b"
    ∷ opens "/a/c"
    ∷ begins "/a/c"
    ∷ begins "/a/b"
    ∷ finishes "/a/b"
    ∷ ends "/a/c"
    ∷ []

run-load_example : load (run (new_backpressure_interceptor small) served) "/a/b" ≡ pos 1
run-load_example = run-load small "/a/b" served 1 1 refl
