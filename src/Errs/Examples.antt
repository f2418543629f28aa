-- ===== src/Errs/Examples.antt =====
-- internal/errs/: witnesses and tests.
use eidola.Common.{
  ℕ, String, ◌≡◌, refl, true, none, some, List, [], ◌∷◌, ◌++◌, map, ◌==◌, length, keep,
}
use eidola.Common.Dict.{Entry, get}
use eidola.Errs.Defs.{
  AggregatedError, EnhancedError, ErrorAggregator, get_top_errors, global_error_aggregator,
  log_severe, new_enhanced_error, new_error_aggregator, record_error, settle, severity_error,
  severity_warning, sort_errors, take,
}
use eidola.Errs.Counts.{summary, record_all, record_all-summary}
use eidola.Errs.Top.{Descending, get_top_errors-Descending}

abbrev lost : String → EnhancedError
lost id = new_enhanced_error id ("client.go:10 dial" ∷ []) "E1" "lost" severity_error "NETWORK"

abbrev slow : EnhancedError
slow = new_enhanced_error "9" ("client.go:20 call" ∷ []) "E2" "slow" severity_warning "NETWORK"

abbrev history : List (EnhancedError × ℕ)
history = (lost "1", 10) ∷ (slow, 20) ∷ (lost "2", 30) ∷ []

record_all-summary_example :
    (q : ErrorAggregator) × ((record_all (new_error_aggregator 1000 true) history ≡ some q)
      × (summary (get q.errors "E1") ≡ (2, lost "1" ∷ lost "2" ∷ [])))
unfolding new_enhanced_error take
record_all-summary_example = record_all-summary 1000 "E1" history refl

stops : record_error global_error_aggregator (lost "1") 10 ≡ none
unfolding record_error log_severe global_error_aggregator new_error_aggregator new_enhanced_error
stops = refl

abbrev seen_times : String → ℕ → Entry AggregatedError
seen_times code n = record {
  key = code;
  value = record {
    code = code;
    count = n;
    first_seen = 10;
    last_seen = 20;
    samples = [];
    max_samples = 10;
  };
}

abbrev three : List (Entry AggregatedError)
three = seen_times "E1" 2 ∷ seen_times "E2" 5 ∷ seen_times "E3" 3 ∷ []

top_two : map (λ a. a.count) (get_top_errors three 2) ≡ 5 ∷ 3 ∷ []
unfolding get_top_errors sort_errors settle take
top_two = refl

get_top_errors-Descending_example :
    (rest : List AggregatedError) × (Descending (get_top_errors three 2 ++ rest)
      × (length (get_top_errors three 2) ≡ 2)
      × (length (keep (λ a. a.count == 3) (get_top_errors three 2 ++ rest))
          ≡ length (keep (λ a. a.count == 3) (map (λ e. e.value) three))))
get_top_errors-Descending_example = get_top_errors-Descending three 2 (λ a. a.count == 3)
