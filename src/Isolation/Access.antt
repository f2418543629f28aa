-- ===== src/Isolation/Access.antt =====
-- internal/security/isolation.go, DefaultAccessControl. A slice of methods is taken not to be changed
-- by the caller of AddRule afterwards.
use eidola.Common.{
  ℕ, zero, suc, ◌-◌, String, Bool, true, false, ◌||◌, Option, none, some, List, [], ◌∷◌, ◌++◌,
  str_eq, ltb, leb, ◌==◌, if◌then◌else◌, length, any,
}
use Prim.Native.Char.{Char, code}
use Prim.Native.String.{◌++◌ as ◌++ₛ◌}
use eidola.Common.Dict.{Dict, get, assign, delete}

pub record ServiceIdentity : Type 0 where
  pub name : String
  pub namespace : String
  pub version : String
  pub roles : List String
  pub metadata : Dict String

-- String: fmt.Sprintf("%s.%s-v%s", Namespace, Name, Version)
unfoldable pub key_of : ServiceIdentity → String
key_of s = s.namespace ++ₛ ("." ++ₛ (s.name ++ₛ ("-v" ++ₛ s.version)))

pub record CallRecord (E : Type 0) : Type 0 where
  pub from : ServiceIdentity
  pub to : ServiceIdentity
  pub method : String
  pub timestamp : ℕ
  pub duration : ℕ
  pub error : Option E

pub record DefaultAccessControl (E : Type 0) : Type 0 where
  pub rules : Dict (Dict (List String))
  pub call_records : List (CallRecord E)
  pub max_records : ℕ

abbrev is_star : Char → Bool
is_star c = code c == b'*'

abbrev pub with_char : Char → Option String → Option String
with_char c none = none
with_char c (some s) = some (String.◌∷◌ c s)

abbrev star_only : Char → Option String
star_only c = if is_star c then some "" else none

-- strings.TrimSuffix(m, "*"), if strings.HasSuffix(m, "*").
unfoldable pub strip_star : String → Option String
strip_star String.[] = none
strip_star (String.◌∷◌ c String.[]) = star_only c
strip_star (String.◌∷◌ c (String.◌∷◌ d s)) = with_char c (strip_star (String.◌∷◌ d s))

-- strings.HasPrefix
unfoldable pub has_prefix : String → String → Bool
has_prefix s String.[] = true
has_prefix String.[] (String.◌∷◌ c p) = false
has_prefix (String.◌∷◌ d s) (String.◌∷◌ c p) = if code d == code c then has_prefix s p else false

-- One round of the loop of AllowCall.
unfoldable pub matches : String → String → Bool
matches method m =
    str_eq m "*"
    || str_eq m method
    || elim (strip_star m) [ none ↦ false | some p ↦ has_prefix method p ]

abbrev pub is_empty {ℓ} : {A : Type ℓ} → List A → Bool
is_empty [] = true
is_empty (x ∷ xs) = false

abbrev pub or_empty : {A : Type 0} → Option (Dict A) → Dict A
or_empty none = []
or_empty (some m) = m

-- The records after the oldest is removed; none is a panic.
abbrev pub without_first : {A : Type 0} → List A → Option (List A)
without_first [] = none
without_first (x ∷ xs) = some xs

-- xs[n:]
unfoldable pub drop_first {ℓ} : {A : Type ℓ} → ℕ → List A → List A
drop_first zero xs = xs
drop_first (suc n) [] = []
drop_first (suc n) (x ∷ xs) = drop_first n xs

module _ {E : Type 0} where
  unfoldable pub new_default_access_control : DefaultAccessControl E
  new_default_access_control = record { rules = []; call_records = []; max_records = 1000 }

  unfoldable pub add_rule :
      DefaultAccessControl E
      → ServiceIdentity
      → ServiceIdentity
      → List String
      → DefaultAccessControl E
  add_rule ac from to methods = record ac {
    rules =
        assign ac.rules (key_of from)
          (assign (or_empty (get ac.rules (key_of from))) (key_of to) methods);
  }

  unfoldable pub remove_rule :
      DefaultAccessControl E → ServiceIdentity → ServiceIdentity → DefaultAccessControl E
  remove_rule ac from to = elim (get ac.rules (key_of from)) [
    | none ↦ ac
    | some to_rules ↦
        if is_empty (delete to_rules (key_of to))
        then record ac { rules = delete ac.rules (key_of from) }
        else record ac { rules = assign ac.rules (key_of from) (delete to_rules (key_of to)) }
  ]

  unfoldable pub allow_call :
      DefaultAccessControl E → ServiceIdentity → ServiceIdentity → String → Bool
  allow_call ac from to method = elim (get ac.rules (key_of from)) [
    | none ↦ false
    | some to_rules ↦ elim (get to_rules (key_of to)) [
      | none ↦ false
      | some methods ↦ is_empty methods || any (matches method) methods
    ]
  ]

  -- none is a panic: the slice [1:] of no records.
  unfoldable pub record_call :
      DefaultAccessControl E → CallRecord E → Option (DefaultAccessControl E)
  record_call ac r =
      if leb ac.max_records (length ac.call_records)
      then elim (without_first ac.call_records) [
        | none ↦ none
        | some rest ↦ some (record ac { call_records = rest ++ r ∷ [] })
      ]
      else some (record ac { call_records = ac.call_records ++ r ∷ [] })

  unfoldable pub get_records : DefaultAccessControl E → List (CallRecord E)
  get_records ac = ac.call_records

  unfoldable pub set_max_records : DefaultAccessControl E → ℕ → DefaultAccessControl E
  set_max_records ac max = record ac {
    max_records = max;
    call_records =
        if ltb max (length ac.call_records)
        then drop_first (length ac.call_records - max) ac.call_records
        else ac.call_records;
  }
