-- ===== src/Isolation/Rules.antt =====
-- internal/security/isolation.go, DefaultAccessControl: what the rules allow.
use eidola.Common.{
  String, ◌≡◌, refl, inl, inr, Bool, true, false, ◌&&◌, ◌||◌, none, List, [], ◌∷◌, arith, str_eq,
  eq_iff, if◌then◌else◌, Option-cases, any,
}
use eidola.Common.Dict.{Dict, get, assign, delete, get-assign, get-delete}
use eidola.Isolation.Access.{
  ServiceIdentity, key_of, DefaultAccessControl, is_empty, or_empty, matches, add_rule, remove_rule,
  allow_call,
}

get_nothing : {A : Type 0} (key : String) → get {V = A} [] key ≡ none
unfolding get
get_nothing key = refl

get-empty : {A : Type 0} (m : Dict A) (key : String) → is_empty m ≡ true → get m key ≡ none
unfolding get
get-empty [] key h = refl
get-empty (e ∷ m) key h = absurd (ground arith)

abbrev pub same : ServiceIdentity → ServiceIdentity → Bool
same s t = str_eq (key_of s) (key_of t)

module _ {E : Type 0} where
  allow_call-add :
      (ac : DefaultAccessControl E) (from to f t : ServiceIdentity) (methods : List String)
      (method : String)
      → allow_call (add_rule ac from to methods) f t method ≡ (
          if same from f && same to t
          then is_empty methods || any (matches method) methods
          else allow_call ac f t method)
  unfolding allow_call add_rule
  allow_call-add ac from to f t methods method = ground (
    arith,
    eq_iff (key_of from) (key_of f),
    get-assign ac.rules (key_of from)
        (assign (or_empty (get ac.rules (key_of from))) (key_of to) methods) (key_of f),
    get-assign (or_empty (get ac.rules (key_of from))) (key_of to) methods (key_of t),
    get_nothing {A = List String} (key_of t),
  )

  allow_call-remove :
      (ac : DefaultAccessControl E) (from to f t : ServiceIdentity) (method : String)
      → allow_call (remove_rule ac from to) f t method
        ≡ (if same from f && same to t then false else allow_call ac f t method)
  unfolding allow_call remove_rule
  allow_call-remove ac from to f t method = elim (Option-cases (get ac.rules (key_of from))) [
    | inl absent ↦ ground (arith, eq_iff (key_of from) (key_of f))
    | inr (to_rules, present) ↦ ground (
      arith,
      eq_iff (key_of from) (key_of f),
      get-assign ac.rules (key_of from) (delete to_rules (key_of to)) (key_of f),
      get-delete ac.rules (key_of from) (key_of f),
      get-delete to_rules (key_of to) (key_of t),
      get-empty (delete to_rules (key_of to)) (key_of t),
    )
  ]

  -- After AddRule a call from and to the services of the rule, which are known by their namespace,
  -- name and version written as one string, is allowed exactly if the rule lists no methods or one
  -- that matches; after RemoveRule it is not allowed. Other calls are allowed as before.
  pub allow_call-rules :
      (ac : DefaultAccessControl E) (from to f t : ServiceIdentity) (methods : List String)
      (method : String)
      → (allow_call (add_rule ac from to methods) f t method ≡ (
          if same from f && same to t
          then is_empty methods || any (matches method) methods
          else allow_call ac f t method))
        × (allow_call (remove_rule ac from to) f t method
            ≡ (if same from f && same to t then false else allow_call ac f t method))
  allow_call-rules ac from to f t methods method =
      (allow_call-add ac from to f t methods method, allow_call-remove ac from to f t method)
