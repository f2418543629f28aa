-- ===== src/Errs/Defs.antt =====
-- internal/errs/enhanced_errors.go. Severities are the numbers of their constants, grpc codes those of
-- grpc; identifiers and stack traces are arguments. A range over the map of errors visits its entries
-- in an order that is an argument.
use eidola.Common.{
  ℕ, zero, suc, String, Bool, false, Option, none, some, List, [], ◌∷◌, ◌++◌, map, str_eq, ltb, leb,
  ◌==◌, if◌then◌else◌, length, keep,
}
use eidola.Common.Dict.{Dict, Entry, get, assign}

abbrev pub severity_info : ℕ
severity_info = 0

abbrev pub severity_warning : ℕ
severity_warning = 1

abbrev pub severity_error : ℕ
severity_error = 2

abbrev pub severity_critical : ℕ
severity_critical = 3

abbrev pub severity_fatal : ℕ
severity_fatal = 4

unfoldable pub severity_name : ℕ → String
severity_name s =
    if s == severity_info
    then "INFO"
    else if s == severity_warning
    then "WARNING"
    else if s == severity_error
    then "ERROR"
    else if s == severity_critical
    then "CRITICAL"
    else if s == severity_fatal
    then "FATAL"
    else "UNKNOWN"

pub data RecoveryStrategy : Type 0 where
  recovery_retry recovery_fallback recovery_circuit_break : RecoveryStrategy
  recovery_ignore recovery_abort : RecoveryStrategy

unfoldable pub recovery_name : RecoveryStrategy → String
recovery_name recovery_retry = "RETRY"
recovery_name recovery_fallback = "FALLBACK"
recovery_name recovery_circuit_break = "CIRCUIT_BREAK"
recovery_name recovery_ignore = "IGNORE"
recovery_name recovery_abort = "ABORT"

-- OK, Internal and Unknown.
unfoldable pub map_severity_to_grpc_code : ℕ → ℕ
map_severity_to_grpc_code s =
    if s == severity_info then 0 else if leb s severity_fatal then 13 else 2

unfoldable pub choose_default_recovery_strategy : ℕ → RecoveryStrategy
choose_default_recovery_strategy s =
    if s == severity_info
    then recovery_ignore
    else if s == severity_warning
    then recovery_retry
    else if s == severity_error
    then recovery_fallback
    else if s == severity_critical
    then recovery_circuit_break
    else if s == severity_fatal
    then recovery_abort
    else recovery_retry

-- The fields that the package reads; `cause` is the text of the cause.
pub record EnhancedError : Type 0 where
  pub id : String
  pub code : String
  pub message : String
  pub grpc_code : ℕ
  pub severity : ℕ
  pub category : String
  pub metadata : Dict String
  pub recovery_strategy : RecoveryStrategy
  pub trace : List String
  pub cause : Option String

-- An error that FromError is given.
pub data Source : Type 0 where
  nil_error : Source
  enhanced : EnhancedError → Source
  grpc_status : ℕ → String → Source
  plain : String → Source

unfoldable pub new_enhanced_error :
    String → List String → String → String → ℕ → String → EnhancedError
new_enhanced_error id trace code message severity category = record {
  id = id;
  code = code;
  message = message;
  grpc_code = map_severity_to_grpc_code severity;
  severity = severity;
  category = category;
  metadata = [];
  recovery_strategy = choose_default_recovery_strategy severity;
  trace = trace;
  cause = none;
}

unfoldable pub from_error :
    String → List String → Source → String → ℕ → String → Option EnhancedError
unfolding new_enhanced_error
from_error id trace nil_error code severity category = none
from_error id trace (enhanced e) code severity category = some e
from_error id trace (grpc_status status message) code severity category =
    some (record (new_enhanced_error id trace code message severity category) {
      grpc_code = status;
      cause = some message;
    })
from_error id trace (plain message) code severity category =
    some
      (record (new_enhanced_error id trace code message severity category) { cause = some message })

unfoldable pub with_metadata : EnhancedError → String → String → EnhancedError
with_metadata e key value = record e { metadata = assign e.metadata key value }

unfoldable pub with_recovery_strategy : EnhancedError → RecoveryStrategy → EnhancedError
with_recovery_strategy e strategy = record e { recovery_strategy = strategy }

pub record AggregatedError : Type 0 where
  pub code : String
  pub count : ℕ
  pub first_seen : ℕ
  pub last_seen : ℕ
  pub samples : List EnhancedError
  pub max_samples : ℕ

-- `logger` says that the logger is not nil, and `logged` has the identifiers that it was given.
pub record ErrorAggregator : Type 0 where
  pub errors : Dict AggregatedError
  pub max_capacity : ℕ
  pub logger : Bool
  pub logged : List String

unfoldable pub new_error_aggregator : ℕ → Bool → ErrorAggregator
new_error_aggregator capacity logger = record {
  errors = [];
  max_capacity = capacity;
  logger = logger;
  logged = [];
}

-- GetGlobalErrorAggregator: its logger is nil.
unfoldable pub global_error_aggregator : ErrorAggregator
unfolding new_error_aggregator
global_error_aggregator = new_error_aggregator 1000 false

unfoldable pub aggregated_with : Option AggregatedError → EnhancedError → ℕ → AggregatedError
aggregated_with none err now = record {
  code = err.code;
  count = 1;
  first_seen = now;
  last_seen = now;
  samples = err ∷ [];
  max_samples = 10;
}
aggregated_with (some a) err now = record a {
  count = suc a.count;
  last_seen = now;
  samples = if ltb (length a.samples) a.max_samples then a.samples ++ err ∷ [] else a.samples;
}

-- The error is logged; none is a panic: a call of a nil logger, or the first line of an empty trace.
unfoldable pub log_severe : ErrorAggregator → EnhancedError → Option ErrorAggregator
log_severe ea err =
    if leb severity_error err.severity
    then if ea.logger
      then elim err.trace [
        | [] ↦ none
        | caller ∷ rest ↦ some (record ea { logged = ea.logged ++ err.id ∷ [] })
      ]
      else none
    else some ea

unfoldable pub record_error : ErrorAggregator → EnhancedError → ℕ → Option ErrorAggregator
record_error ea err now =
    log_severe
      (record ea {
        errors = assign ea.errors err.code (aggregated_with (get ea.errors err.code) err now);
      })
      err

unfoldable pub clear : ErrorAggregator → ErrorAggregator
clear ea = record ea { errors = [] }

-- The inner loop of GetTopErrors: what ends at its place, and the elements after it.
unfoldable pub settle :
    AggregatedError → List AggregatedError → AggregatedError × List AggregatedError
settle a [] = (a, [])
settle a (b ∷ bs) =
    let swapped = settle b bs in
    let kept = settle a bs in
    if ltb a.count b.count then (swapped.0, a ∷ swapped.1) else (kept.0, b ∷ kept.1)

-- The outer loop, over as many places as there are elements.
unfoldable pub sort_errors : ℕ → List AggregatedError → List AggregatedError
unfolding settle
sort_errors zero errors = errors
sort_errors (suc n) [] = []
sort_errors (suc n) (a ∷ rest) = let s = settle a rest in s.0 ∷ sort_errors n s.1

-- errorSlice[:n]
unfoldable pub take {ℓ} : {A : Type ℓ} → ℕ → List A → List A
take zero xs = []
take (suc n) [] = []
take (suc n) (x ∷ xs) = x ∷ take n xs

unfoldable pub get_top_errors : List (Entry AggregatedError) → ℕ → List AggregatedError
get_top_errors order n = take n (sort_errors (length order) (map (λ e. e.value) order))

abbrev pub first_is : (EnhancedError → Bool) → AggregatedError → Bool
first_is p a = elim a.samples [ [] ↦ false | e ∷ rest ↦ p e ]

unfoldable pub get_errors_by_severity : List (Entry AggregatedError) → ℕ → List AggregatedError
get_errors_by_severity order severity =
    keep (first_is (λ e. e.severity == severity)) (map (λ e. e.value) order)

unfoldable pub get_errors_by_category : List (Entry AggregatedError) → String → List AggregatedError
get_errors_by_category order category =
    keep (first_is (λ e. str_eq e.category category)) (map (λ e. e.value) order)
