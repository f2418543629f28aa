-- ===== src/Token/Blacklist.antt =====
-- auth/token/blacklist.go, InMemoryBlacklist: identifiers of tokens with the second until which
-- they are barred. Durations and the clock are in nanoseconds.
use eidola.Common.{
  ℕ, ◌+◌, ◌/◌, ◌≤◌, String, ◌≡◌, Bool, true, false, Option, none, some, List, [], ◌∷◌, arith,
  eq_iff, eq_refl, ltb, leb, if◌then◌else◌,
}
use eidola.Common.Dict.{Dict, Entry, get, assign, delete, get-assign, get-delete}

abbrev pub second : ℕ
second = 1000000000

pub record InMemoryBlacklist : Type 0 where
  pub blacklist : Dict ℕ

unfoldable pub new_in_memory_blacklist : InMemoryBlacklist
new_in_memory_blacklist = record { blacklist = [] }

unfoldable pub add_to_blacklist : InMemoryBlacklist → String → ℕ → ℕ → InMemoryBlacklist
add_to_blacklist b token_id expiration now = record {
  blacklist = assign b.blacklist token_id ((now + expiration) / second);
}

unfoldable pub check_expiry : InMemoryBlacklist → String → ℕ → Option ℕ → InMemoryBlacklist × Bool
check_expiry b token_id now none = (b, false)
check_expiry b token_id now (some expiry_time) =
    if ltb expiry_time (now / second)
    then (record { blacklist = delete b.blacklist token_id }, false)
    else (b, true)

unfoldable pub is_blacklisted : InMemoryBlacklist → String → ℕ → InMemoryBlacklist × Bool
is_blacklisted b token_id now = check_expiry b token_id now (get b.blacklist token_id)

unfoldable pub remove_from_blacklist : InMemoryBlacklist → String → InMemoryBlacklist
remove_from_blacklist b token_id = record { blacklist = delete b.blacklist token_id }

unfoldable pub clean_barred : ℕ → List (Entry ℕ) → InMemoryBlacklist → InMemoryBlacklist
clean_barred now [] b = b
clean_barred now (e ∷ es) b =
    clean_barred now es
      (if ltb e.value (now / second) then record { blacklist = delete b.blacklist e.key } else b)

unfoldable pub cleanup_expired : InMemoryBlacklist → ℕ → InMemoryBlacklist
cleanup_expired b now = clean_barred now b.blacklist b

div_mono : (a b : ℕ) → a ≤ b → a / second ≤ b / second
div_mono a b h = ground arith

is_blacklisted-get :
    (b : InMemoryBlacklist) (asked token_id : String) (now later : ℕ)
    → now ≤ later
    → (is_blacklisted (is_blacklisted b asked now).0 token_id later).1
      ≡ (is_blacklisted b token_id later).1
unfolding is_blacklisted check_expiry
is_blacklisted-get b asked token_id now later h =
    ground
      (arith, get-delete b.blacklist asked token_id, eq_iff asked token_id, div_mono now later h)

-- A token that has been put on the blacklist for a while is on it exactly until the second in which that while
-- ends, whatever was asked meanwhile of the blacklist, in the order of the times.
is_blacklisted-add :
    (b : InMemoryBlacklist) (token_id asked : String) (expiration now meanwhile later : ℕ)
    → meanwhile ≤ later
    → (is_blacklisted
        (is_blacklisted (add_to_blacklist b token_id expiration now) asked meanwhile).0
        token_id
        later).1
      ≡ leb (later / second) ((now + expiration) / second)
unfolding is_blacklisted check_expiry add_to_blacklist
is_blacklisted-add b token_id asked expiration now meanwhile later h = ground (
  arith,
  is_blacklisted-get (add_to_blacklist b token_id expiration now) asked token_id meanwhile later h,
  get-assign b.blacklist token_id ((now + expiration) / second) token_id,
  eq_refl token_id,
)
