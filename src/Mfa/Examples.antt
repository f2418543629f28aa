-- ===== src/Mfa/Examples.antt =====
-- auth/mfa/: witnesses and tests, with codes of six digits that end in the last byte of the counter.
use eidola.Common.{
  ◌⊎◌, ◌-◌, str_eq, ℕ, zero, suc, String, ◌≡◌, refl, ◌↔◌, inl, inr, true, false, some, List, [],
  ◌∷◌, arith, ◌==◌, if◌then◌else◌, ◌+◌,
}
use eidola.Common.Dict.{Dict, get, assign}
use eidola.Token.Sample.{ann}
use eidola.Mfa.Totp.{
  Library, TotpConfig, byte_length, completed, counter_bytes, generate_code_at, generate_otp,
  new_totp, normalised, truncated, validate_code_with_window, validate_steps,
}
use eidola.Mfa.Repository.{
  InMemoryMfaRepository, err_mfa_not_enabled, err_mfa_required, err_mfa_invalid, get_user_mfa,
}
use eidola.Mfa.Provider.{TotpProvider, read, refused, setup, setup_config, setup_data, setup_with}
use eidola.Mfa.Authenticator.{MfaAuthenticator, authenticate, disable_mfa, mfa_failed, setup_mfa}
use eidola.Mfa.Window.{Near, validate-window}
use eidola.Mfa.Enrolment.{setup-disabled, setup-draws}
use eidola.Mfa.Confirmation.{Stores}

abbrev last_of : List ℕ → ℕ
last_of [] = 0
last_of (x ∷ []) = x
last_of (x ∷ (y ∷ ys)) = last_of (y ∷ ys)

abbrev zeros : ℕ → List ℕ
zeros zero = []
zeros (suc n) = 0 ∷ zeros n

abbrev shown : ℕ → String
shown n = if n == 7 then "000007" else if n == 8 then "000008" else "000000"

abbrev library : Library
library = record {
  to_upper = λ s. s;
  without_spaces = λ s. s;
  without_padding = λ s. s;
  trim_space = λ s. s;
  decode = λ s. some (if str_eq s "S" then 1 ∷ [] else 9 ∷ []);
  hmac = λ key message. 0 ∷ 0 ∷ 0 ∷ (last_of message + last_of key - 1) ∷ zeros 16;
  decimal = shown;
  padded = λ digits n. shown n;
  uri = λ t. "otpauth://totp";
}

abbrev config : TotpConfig
config = record {
  secret = "S";
  digits = 6;
  period = 30;
  algorithm = "SHA1";
  issuer = "eidola";
  account_name = "1";
}

code_of_seven : generate_otp library config 7 ≡ some "000007"
unfolding generate_otp counter_bytes truncated
code_of_seven = refl

accepted_late : validate_code_with_window library config "000007" 1 245 ≡ true
unfolding validate_code_with_window validate_steps generate_code_at generate_otp counter_bytes
    truncated byte_length
accepted_late = refl

too_late : validate_code_with_window library config "000007" 1 270 ≡ false
unfolding validate_code_with_window validate_steps generate_code_at generate_otp counter_bytes
    truncated byte_length
too_late = refl

validate-window_example :
    (validate_code_with_window library config "000007" 1 245 ≡ true)
    ↔ ((byte_length "000007" ≡ 6) × Near library config "000007" 1 245)
validate-window_example = validate-window library config "000007" 1 245 (omega arith) (omega arith)

abbrev provider : TotpProvider
provider = record { window = 1; default_config = record config { secret = ""; account_name = "" } }

abbrev authenticator : MfaAuthenticator
authenticator = record {
  providers = record { key = "totp"; value = provider } ∷ [];
  force_mfa = false;
}

abbrev nobody : InMemoryMfaRepository
nobody = record { entries = [] }

abbrev confirming : Dict String
confirming =
    record { key = "verify"; value = "true" } ∷ record { key = "code"; value = "000007" } ∷ []

abbrev enrolled : InMemoryMfaRepository
enrolled = record { entries = record { key = "1"; value = [] } ∷ [] }

abbrev answer : Dict String
answer =
    record { key = "secret"; value = "S" }
    ∷ record { key = "uri"; value = "otpauth://totp" }
    ∷ record { key = "algorithm"; value = "SHA1" }
    ∷ record { key = "digits"; value = "000000" }
    ∷ record { key = "period"; value = "000000" }
    ∷ record { key = "setup_complete"; value = "true" }
    ∷ []

sets_up :
    (setup_mfa library authenticator nobody "1" "totp" confirming (some "S") 215).1 ≡ inr answer
unfolding setup_mfa setup setup_with refused get_user_mfa new_totp completed normalised setup_data
    setup_config read get assign validate_code_with_window validate_steps generate_code_at
    generate_otp counter_bytes truncated byte_length
sets_up = refl

abbrev confirmed : InMemoryMfaRepository
confirmed = (setup_mfa library authenticator nobody "1" "totp" confirming (some "S") 215).0

setup-draws_example :
    (confirmed ≡ nobody)
    ⊎ ((s : String) × ((some "S" ≡ some s)
          × Stores library provider nobody "1" confirming 215 s confirmed
          × (authenticate {X = Unit {0}} authenticator confirmed (inr ann)
              ≡ inl (mfa_failed err_mfa_required))))
unfolding get
setup-draws_example =
    setup-draws library authenticator provider nobody ann confirming (some "S") 215 refl

-- A code of the secret S is none of the secret that the next call draws.
refuses_other :
    (setup_mfa library authenticator nobody "1" "totp" confirming (some "T") 215).1
    ≡ inl err_mfa_invalid
unfolding setup_mfa setup setup_with refused get_user_mfa new_totp completed normalised setup_data
    setup_config read get assign validate_code_with_window validate_steps generate_code_at
    generate_otp counter_bytes truncated byte_length
refuses_other = refl

setup-disabled_example :
    setup_mfa library authenticator
      (disable_mfa authenticator enrolled "1" "totp").0
      "1"
      "totp"
      confirming
      (some "S")
      215
    ≡ ((disable_mfa authenticator enrolled "1" "totp").0, inl err_mfa_not_enabled)
unfolding get
setup-disabled_example =
    setup-disabled library authenticator provider enrolled "1" [] confirming (some "S") 215 refl
      refl
