-- ===== src/Mfa/Provider.antt =====
-- auth/mfa/authenticator.go, TOTPProvider over InMemoryMFARepository.
use eidola.Common.{
  ℕ, String, ◌⊎◌, inl, inr, Bool, not, ◌&&◌, Option, none, some, [], ◌∷◌, str_eq, ◌==◌,
  if◌then◌else◌,
}
use eidola.Common.Dict.{Dict, get, assign}
use eidola.Mfa.Totp.{
  TotpConfig, Library, default_digits, default_period, default_algorithm, new_totp,
  validate_code_with_window,
}
use eidola.Mfa.Repository.{
  Error, err_mfa_invalid, err_mfa_not_enabled, err_user_not_found, no_random, totp_already_set,
  mfa_type_totp, InMemoryMfaRepository, get_user_mfa, set_user_mfa, disable_user_mfa,
}

pub record TotpProvider : Type 0 where
  pub window : ℕ
  pub default_config : TotpConfig

unfoldable pub new_totp_provider : String → ℕ → TotpProvider
new_totp_provider issuer window = record {
  window = if window == 0 then 1 else window;
  default_config = record {
    secret = "";
    digits = default_digits;
    period = default_period;
    algorithm = default_algorithm;
    issuer = issuer;
    account_name = "";
  };
}

-- m[key] of a map of strings: "" if it is missing.
unfoldable pub read : Dict String → String → String
read m key = elim (get m key) [ none ↦ "" | some s ↦ s ]

unfoldable pub generate_challenge : TotpProvider → InMemoryMfaRepository → String → Error ⊎ String
generate_challenge p r user_id = elim (get_user_mfa r user_id mfa_type_totp) [
  | inl e ↦ inl e
  | inr d ↦ if str_eq (read d "secret") "" then inl err_mfa_not_enabled else inr ""
]

unfoldable pub setup_config : TotpProvider → String → Dict String → TotpConfig
setup_config p user_id params = record p.default_config {
  secret = "";
  account_name =
      if str_eq (read params "account_name") "" then user_id else read params "account_name";
}

-- Whether Setup goes on after GetUserMFA.
unfoldable pub refused : Error ⊎ Dict String → Dict String → Option Error
refused (inl err_user_not_found) params = none
refused (inl e) params = some e
refused (inr existing) params =
    if not (str_eq (read existing "secret") "") && not (str_eq (read params "reset") "true")
    then some totp_already_set
    else none

module _ (lib : Library) where
  unfoldable pub check : ℕ → Option TotpConfig → String → ℕ → Error ⊎ Bool
  check window none response now = inl no_random
  check window (some t) response now = inr (validate_code_with_window lib t response window now)

  -- The secret is not empty, so that none is generated.
  unfoldable pub verify_challenge :
      TotpProvider → InMemoryMfaRepository → String → String → ℕ → Error ⊎ Bool
  verify_challenge p r user_id response now = elim (get_user_mfa r user_id mfa_type_totp) [
    | inl e ↦ inl e
    | inr d ↦
        if str_eq (read d "secret") ""
        then inl err_mfa_not_enabled
        else check p.window
            (new_totp lib (record p.default_config { secret = read d "secret"; account_name = "" })
              none)
            response now
  ]

  unfoldable pub setup_data : TotpProvider → TotpConfig → Dict String
  setup_data p t =
      record { key = "secret"; value = t.secret }
      ∷ record { key = "uri"; value = lib.uri t }
      ∷ record { key = "algorithm"; value = p.default_config.algorithm }
      ∷ record { key = "digits"; value = lib.decimal p.default_config.digits }
      ∷ record { key = "period"; value = lib.decimal p.default_config.period }
      ∷ []

  -- From the new TOTP on. The map that SetUserMFA stores is the one that is changed afterwards.
  unfoldable pub setup_with :
      TotpProvider
      → InMemoryMfaRepository
      → String
      → Dict String
      → Option TotpConfig
      → ℕ
      → InMemoryMfaRepository × (Error ⊎ Dict String)
  setup_with p r user_id params none now = (r, inl no_random)
  setup_with p r user_id params (some t) now =
      let d = setup_data p t in
      if str_eq (read params "verify") "true" && not (str_eq (read params "code") "")
      then if not (validate_code_with_window lib t (read params "code") 1 now)
        then (r, inl err_mfa_invalid)
        else (
          set_user_mfa r user_id mfa_type_totp (assign d "setup_complete" "true"),
          inr (assign d "setup_complete" "true"),
        )
      else (r, inr (assign d "setup_complete" "false"))

  -- `secret` is what GenerateSecret answers.
  unfoldable pub setup :
      TotpProvider
      → InMemoryMfaRepository
      → String
      → Dict String
      → Option String
      → ℕ
      → InMemoryMfaRepository × (Error ⊎ Dict String)
  setup p r user_id params secret now =
      elim (refused (get_user_mfa r user_id mfa_type_totp) params) [
        | some e ↦ (r, inl e)
        | none ↦
            setup_with p r user_id params (new_totp lib (setup_config p user_id params) secret) now
      ]

unfoldable pub disable : InMemoryMfaRepository → String → InMemoryMfaRepository
disable r user_id = disable_user_mfa r user_id mfa_type_totp
