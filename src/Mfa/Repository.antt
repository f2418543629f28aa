-- ===== src/Mfa/Repository.antt =====
-- auth/mfa/authenticator.go, InMemoryMFARepository. A nil map reads as an empty one.
use eidola.Common.{String, ◌⊎◌, inl, inr, Option, none, some, List, [], map}
use eidola.Common.Dict.{Dict, get, assign, delete}

pub data Error : Type 0 where
  err_mfa_required err_mfa_invalid err_mfa_not_enabled err_user_not_found : Error
  no_random totp_already_set : Error
  unsupported_type : String → Error

abbrev pub mfa_type_totp : String
mfa_type_totp = "totp"

-- The data of a user, by the type of factor.
pub record InMemoryMfaRepository : Type 0 where
  pub entries : Dict (Dict (Dict String))

unfoldable pub new_in_memory_mfa_repository : InMemoryMfaRepository
new_in_memory_mfa_repository = record { entries = [] }

abbrev pub or_error : {A : Type 0} → Error → Option A → Error ⊎ A
or_error e none = inl e
or_error e (some a) = inr a

unfoldable pub get_user_mfa : InMemoryMfaRepository → String → String → Error ⊎ Dict String
get_user_mfa r user_id mfa_type = elim (get r.entries user_id) [
  | none ↦ inl err_user_not_found
  | some user_mfa ↦ or_error err_mfa_not_enabled (get user_mfa mfa_type)
]

abbrev pub or_empty : {A : Type 0} → Option (Dict A) → Dict A
or_empty none = []
or_empty (some m) = m

unfoldable pub set_user_mfa :
    InMemoryMfaRepository → String → String → Dict String → InMemoryMfaRepository
set_user_mfa r user_id mfa_type d = record {
  entries = assign r.entries user_id (assign (or_empty (get r.entries user_id)) mfa_type d);
}

unfoldable pub disable_user_mfa : InMemoryMfaRepository → String → String → InMemoryMfaRepository
disable_user_mfa r user_id mfa_type = elim (get r.entries user_id) [
  | none ↦ r
  | some user_mfa ↦ record { entries = assign r.entries user_id (delete user_mfa mfa_type) }
]

unfoldable pub list_user_mfa : InMemoryMfaRepository → String → Error ⊎ List String
list_user_mfa r user_id = elim (get r.entries user_id) [
  | none ↦ inl err_user_not_found
  | some user_mfa ↦ inr (map (λ e. e.key) user_mfa)
]
