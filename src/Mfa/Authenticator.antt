-- ===== src/Mfa/Authenticator.antt =====
-- auth/mfa/authenticator.go, MFAAuthenticator, whose providers are TOTPProviders, over
-- InMemoryMFARepository and any base authenticator, which is given by its answer.
use eidola.Common.{
  ℕ, String, ◌⊎◌, inl, inr, Bool, true, false, not, ◌||◌, Option, none, some, List, [], ◌∷◌,
  if◌then◌else◌,
}
use eidola.Common.Dict.{Dict, get, assign}
use eidola.Token.Store.{User}
use eidola.Mfa.Totp.{Library}
use eidola.Mfa.Repository.{
  Error, err_mfa_required, err_user_not_found, unsupported_type, mfa_type_totp,
  InMemoryMfaRepository, list_user_mfa,
}
use eidola.Mfa.Provider.{TotpProvider, verify_challenge, setup, disable}

pub record MfaAuthenticator : Type 0 where
  pub providers : Dict TotpProvider
  pub force_mfa : Bool

unfoldable pub add_providers : Dict TotpProvider → List TotpProvider → Dict TotpProvider
add_providers m [] = m
add_providers m (p ∷ ps) = add_providers (assign m mfa_type_totp p) ps

unfoldable pub new_mfa_authenticator : List TotpProvider → Bool → MfaAuthenticator
new_mfa_authenticator providers force_mfa = record {
  providers = add_providers [] providers;
  force_mfa = force_mfa;
}

pub record AuthenticationResult : Type 0 where
  pub user : User
  pub require_mfa : Bool
  pub available_mfa_types : List String

-- An error of the base authenticator, or one of the package.
pub data Failure (X : Type 0) : Type 0 where
  base_failed : X → Failure X
  mfa_failed : Error → Failure X

abbrev pub is_empty : List String → Bool
is_empty [] = true
is_empty (x ∷ xs) = false

module _ {X : Type 0} where
  unfoldable pub result_for :
      MfaAuthenticator → User → Error ⊎ List String → Failure X ⊎ AuthenticationResult
  result_for a user (inr types) = inr (record {
    user = user;
    require_mfa = a.force_mfa || not (is_empty types);
    available_mfa_types = types;
  })
  result_for a user (inl err_user_not_found) =
      inr (record { user = user; require_mfa = a.force_mfa; available_mfa_types = [] })
  result_for a user (inl e) = inl (mfa_failed e)

  unfoldable pub pre_authenticate :
      MfaAuthenticator → InMemoryMfaRepository → X ⊎ User → Failure X ⊎ AuthenticationResult
  pre_authenticate a r (inl e) = inl (base_failed e)
  pre_authenticate a r (inr user) = result_for a user (list_user_mfa r user.id)

  unfoldable pub decide : Failure X ⊎ AuthenticationResult → Failure X ⊎ User
  decide (inl e) = inl e
  decide (inr result) =
      if result.require_mfa then inl (mfa_failed err_mfa_required) else inr result.user

  unfoldable pub authenticate :
      MfaAuthenticator → InMemoryMfaRepository → X ⊎ User → Failure X ⊎ User
  authenticate a r base = decide (pre_authenticate a r base)

unfoldable pub complete_mfa :
    Library → MfaAuthenticator → InMemoryMfaRepository → String → String → String → ℕ → Error ⊎ Bool
complete_mfa lib a r user_id mfa_type code now = elim (get a.providers mfa_type) [
  | none ↦ inl (unsupported_type mfa_type)
  | some p ↦ verify_challenge lib p r user_id code now
]

unfoldable pub setup_mfa :
    Library
    → MfaAuthenticator
    → InMemoryMfaRepository
    → String
    → String
    → Dict String
    → Option String
    → ℕ
    → InMemoryMfaRepository × (Error ⊎ Dict String)
setup_mfa lib a r user_id mfa_type params secret now = elim (get a.providers mfa_type) [
  | none ↦ (r, inl (unsupported_type mfa_type))
  | some p ↦ setup lib p r user_id params secret now
]

unfoldable pub disable_mfa :
    MfaAuthenticator
    → InMemoryMfaRepository
    → String
    → String
    → InMemoryMfaRepository × Option Error
disable_mfa a r user_id mfa_type = elim (get a.providers mfa_type) [
  | none ↦ (r, some (unsupported_type mfa_type))
  | some p ↦ (disable r user_id, none)
]
