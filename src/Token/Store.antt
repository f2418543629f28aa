-- ===== src/Token/Store.antt =====
-- auth/token/store.go, InMemoryTokenStore, and the User of auth/auth.go. A *TokenData that is stored
-- is a value here: its owner does not change it afterwards. A time is a number of seconds.
use eidola.Common.{
  ℕ, String, ◌≡◌, refl, ◌⊎◌, inl, inr, Bool, true, false, not, ◌&&◌, ◌||◌, Option, none, some, List,
  [], ◌∷◌, arith, str_eq, eq_iff, ltb, ◌==◌, if◌then◌else◌,
}
use eidola.Common.Dict.{Dict, Entry, get, assign, delete, get-delete}

pub record User : Type 0 where
  pub id : String
  pub username : String
  pub roles : List String
  pub permissions : List String
  pub metadata : Dict String

pub record TokenData : Type 0 where
  pub access_token : String
  pub refresh_token : String
  pub user_id : String
  pub expires_at : ℕ
  pub token_id : String
  pub revoked : Bool
  pub created_at : ℕ

-- `wraps` is an error that fmt.Errorf makes of another.
pub data Error : Type 0 where
  err_invalid_token err_token_expired err_token_revoked err_user_not_found : Error
  err_permission_denied token_not_found refresh_token_not_found authorizer_not_set : Error
  no_random no_payload no_signature : Error
  wraps : Error → Error

pub record InMemoryTokenStore : Type 0 where
  pub tokens : Dict TokenData
  pub refresh_tokens : Dict String
  pub users : Dict User

unfoldable pub new_in_memory_token_store : InMemoryTokenStore
new_in_memory_token_store = record { tokens = []; refresh_tokens = []; users = [] }

unfoldable pub stamped : TokenData → ℕ → TokenData
stamped token now = if token.created_at == 0 then record token { created_at = now } else token

unfoldable pub store_token : InMemoryTokenStore → TokenData → ℕ → InMemoryTokenStore
unfolding stamped
store_token s token now = record s {
  tokens = assign s.tokens token.token_id (stamped token now);
  refresh_tokens =
      if str_eq token.refresh_token ""
      then s.refresh_tokens
      else assign s.refresh_tokens token.refresh_token token.token_id;
}

unfoldable pub found : Error → Option TokenData → Error ⊎ TokenData
found e none = inl e
found e (some token) = inr token

unfoldable pub get_token : InMemoryTokenStore → String → Error ⊎ TokenData
get_token s token_id = found token_not_found (get s.tokens token_id)

unfoldable pub get_token_by_id : InMemoryTokenStore → Option String → Error ⊎ TokenData
get_token_by_id s none = inl refresh_token_not_found
get_token_by_id s (some token_id) = found token_not_found (get s.tokens token_id)

unfoldable pub get_token_by_refresh : InMemoryTokenStore → String → Error ⊎ TokenData
get_token_by_refresh s refresh_token = get_token_by_id s (get s.refresh_tokens refresh_token)

unfoldable pub drop_refresh : InMemoryTokenStore → TokenData → InMemoryTokenStore
drop_refresh s token =
    if str_eq token.refresh_token ""
    then s
    else record s { refresh_tokens = delete s.refresh_tokens token.refresh_token }

unfoldable pub revoke_found :
    InMemoryTokenStore → String → Option TokenData → InMemoryTokenStore × Option Error
revoke_found s token_id none = (s, some token_not_found)
revoke_found s token_id (some token) = (
  drop_refresh (record s { tokens = assign s.tokens token_id (record token { revoked = true }) })
      token,
  none,
)

unfoldable pub revoke_token : InMemoryTokenStore → String → InMemoryTokenStore × Option Error
revoke_token s token_id = revoke_found s token_id (get s.tokens token_id)

unfoldable pub is_token_valid : InMemoryTokenStore → String → ℕ → Bool
is_token_valid s token_id now = elim (get s.tokens token_id) [
  | none ↦ false
  | some token ↦ not token.revoked && not (ltb token.expires_at now)
]

unfoldable pub is_stale : ℕ → TokenData → Bool
is_stale now token = ltb token.expires_at now || token.revoked

-- The loop over the entries of the map, which deletes from the store.
unfoldable pub clean_entries : ℕ → List (Entry TokenData) → InMemoryTokenStore → InMemoryTokenStore
clean_entries now [] s = s
clean_entries now (e ∷ es) s =
    let rest = drop_refresh s e.value in
    clean_entries now es
      (if is_stale now e.value then record rest { tokens = delete rest.tokens e.key } else s)

unfoldable pub cleanup_expired_tokens : InMemoryTokenStore → ℕ → InMemoryTokenStore
cleanup_expired_tokens s now = clean_entries now s.tokens s

unfoldable pub get_user_by_id : InMemoryTokenStore → String → Error ⊎ User
get_user_by_id s user_id = elim (get s.users user_id) [
  | none ↦ inl err_user_not_found
  | some user ↦ inr user
]

unfoldable pub store_user : InMemoryTokenStore → User → InMemoryTokenStore
store_user s user = record s { users = assign s.users user.id user }

-- No two entries have one key, as in every Go map.
abbrev pub Keyed : Dict TokenData → Type 0
Keyed [] = Unit
Keyed (e ∷ es) = (get es e.key ≡ none) × Keyed es

clean_entries-get :
    (now : ℕ) (es : List (Entry TokenData)) (s : InMemoryTokenStore) (token_id : String)
    → Keyed es
    → get (clean_entries now es s).tokens token_id ≡ elim (get es token_id) [
      | none ↦ get s.tokens token_id
      | some t ↦ if is_stale now t then none else get s.tokens token_id
    ]
unfolding clean_entries get drop_refresh
clean_entries-get now [] s token_id k = refl
clean_entries-get now (e ∷ es) s token_id k = ground (
  arith,
  clean_entries-get now es s token_id k.1,
  clean_entries-get now es
      (record (drop_refresh s e.value) { tokens = delete (drop_refresh s e.value).tokens e.key })
      token_id k.1,
  get-delete s.tokens e.key token_id,
  eq_iff e.key token_id,
)

-- CleanupExpiredTokens removes exactly the tokens that have expired or are revoked.
cleanup-get :
    (s : InMemoryTokenStore) (now : ℕ) (token_id : String)
    → Keyed s.tokens
    → get (cleanup_expired_tokens s now).tokens token_id ≡ elim (get s.tokens token_id) [
      | none ↦ none
      | some t ↦ if is_stale now t then none else some t
    ]
unfolding cleanup_expired_tokens
cleanup-get s now token_id k = ground (arith, clean_entries-get now s.tokens s token_id k)
