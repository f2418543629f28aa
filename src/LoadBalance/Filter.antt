-- ===== src/LoadBalance/Filter.antt =====
-- loadbalance/filter.go, and what the pickers share: the filter test and the outcome of a pick.
use eidola.Common.{Bool, true, Option, none, some, String, str_eq}

-- A nil Filter is `none`.
abbrev pub Filter : Type 0 → Type 0 → Type 0
Filter I A = Option (I → A → Bool)

-- `b.filter == nil || b.filter(info, addr)`
unfoldable pub passes : {I A : Type 0} → Filter I A → I → A → Bool
passes none info addr = true
passes (some f) info addr = f info addr

-- A pick returns a connection or ErrNoSubConnAvailable, or it panics.
pub data Outcome (C : Type 0) : Type 0 where
  picked : C → Outcome C
  no_sub_conn_available : Outcome C
  panics : Outcome C

-- The type assertion `value.(string)` with its second result dropped: the text or "".
unfoldable pub as_string : Option String → String
as_string none = ""
as_string (some s) = s

-- GroupFilterBuilder.Build: `group_of_addr` and `group_of_info` read the attribute "group" and the
-- context's value "group" where they hold a string.
unfoldable pub group_filter :
    {I A : Type 0} → (A → Option String) → (I → Option String) → Filter I A
unfolding as_string
group_filter group_of_addr group_of_info =
    some (λ info addr. str_eq (as_string (group_of_addr addr)) (as_string (group_of_info info)))
