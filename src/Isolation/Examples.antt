-- ===== src/Isolation/Examples.antt =====
-- internal/security/isolation.go: witnesses and tests.
use eidola.Common.{
  ℕ, zero, All, suc, String, ◌≡◌, refl, true, false, ◌&&◌, ◌||◌, none, some, [], ◌∷◌, arith, ltb,
  if◌then◌else◌, any,
}
use eidola.Common.Dict.{get, assign}
use eidola.Isolation.Access.{
  CallRecord, DefaultAccessControl, ServiceIdentity, add_rule, allow_call, drop_first, get_records,
  has_prefix, key_of, matches, remove_rule, set_max_records, strip_star,
}
use eidola.Isolation.Rules.{same, allow_call-rules}
use eidola.Isolation.Records.{last_of, record_all, record_all-last_of}
use eidola.Isolation.Isolator.{
  Context, Guards, call_key, check_group, circuit_breaker, decorate, decorate_all,
  get_segregation_group, prepare_call, rate_limit, segregate, segregation, Isolators, limit_rate,
  break_circuit,
}
use eidola.Isolation.Calls.{separates, prepare_call-separates}

abbrev service : String → ServiceIdentity
service name = record { name = name; namespace = "shop"; version = "1"; roles = []; metadata = [] }

abbrev blue : ServiceIdentity
blue = record (service "b") { metadata = record { key = "segregation_group"; value = "blue" } ∷ [] }

abbrev nobody : DefaultAccessControl String
nobody = record { rules = []; call_records = []; max_records = 2 }

star_matches : matches "/shop.b/List" "/shop.b/*" ≡ true
unfolding matches strip_star has_prefix
star_matches = refl

abbrev ruled : DefaultAccessControl String
ruled = add_rule nobody (service "a") blue ("/shop.b/*" ∷ [])

rule_allows : allow_call ruled (service "a") blue "/shop.b/List" ≡ true
unfolding allow_call add_rule get assign key_of matches strip_star has_prefix
rule_allows = refl

allow_call-rules_example :
    (allow_call ruled (service "a") blue "/shop.b/List" ≡ (
      if same (service "a") (service "a") && same blue blue
      then false || any (matches "/shop.b/List") ("/shop.b/*" ∷ [])
      else allow_call nobody (service "a") blue "/shop.b/List"))
    × (allow_call (remove_rule nobody (service "a") blue) (service "a") blue "/shop.b/List" ≡ (
        if same (service "a") (service "a") && same blue blue
        then false
        else allow_call nobody (service "a") blue "/shop.b/List"))
allow_call-rules_example =
    allow_call-rules nobody (service "a") blue (service "a") blue ("/shop.b/*" ∷ []) "/shop.b/List"

abbrev call : ℕ → CallRecord String
call n = record {
  from = service "a";
  to = blue;
  method = "/shop.b/List";
  timestamp = n;
  duration = 1;
  error = none;
}

record_all-last_of_example :
    (q : DefaultAccessControl String) × ((record_all nobody (call 1 ∷ call 2 ∷ call 3 ∷ [])
        ≡ some q)
      × (get_records q ≡ last_of 2 (call 1 ∷ call 2 ∷ call 3 ∷ []))
      × (get_records (set_max_records q 1) ≡ last_of 1 (last_of 2 (call 1 ∷ call 2 ∷ call 3 ∷ []))))
record_all-last_of_example =
    record_all-last_of nobody (call 1 ∷ call 2 ∷ call 3 ∷ []) 1 (omega arith) (omega arith)

kept_last : last_of 2 (call 1 ∷ call 2 ∷ call 3 ∷ []) ≡ call 2 ∷ call 3 ∷ []
unfolding drop_first
kept_last = refl

abbrev open_guards : Guards ℕ String
open_guards = record {
  allow = λ s key. (s, ltb s 1);
  note = λ s key. suc s;
  allow_request = λ s key. (s, true);
  record_success = λ s key. s;
  record_failure = λ s key e. s;
}

-- The isolator 0 segregates by the keys of the isolator 1.
abbrev isolators : Isolators String
isolators zero = record {
  access_control = ruled;
  decorators = rate_limit ∷ segregation 1 ∷ circuit_breaker ∷ [];
  services = [];
  segregation_keys = [];
}
isolators (suc n) = record {
  access_control = nobody;
  decorators = [];
  services = [];
  segregation_keys = record { key = "k"; value = "blue" } ∷ [];
}

abbrev keyed : Context
keyed = record { segregation_key = some "k"; circuit_breaker_key = none }

prepared : (prepare_call open_guards isolators 0 0 keyed (service "a") blue "/shop.b/List").2 ≡ none
unfolding prepare_call decorate_all decorate limit_rate break_circuit segregate check_group
    get_segregation_group call_key allow_call add_rule get assign key_of matches strip_star
    has_prefix
prepared = refl

prepare_call-separates_example :
    (allow_call (isolators 0).access_control (service "a") blue "/shop.b/List" ≡ true)
    × All (λ d. separates isolators keyed blue d ≡ true) (isolators 0).decorators
prepare_call-separates_example =
    prepare_call-separates open_guards isolators 0 0 keyed (service "a") blue "/shop.b/List"
      prepared
