-- ===== src/Mfa/Totp.antt =====
-- auth/mfa/totp.go: the configuration, the codes and their validation. Times are whole seconds, as
-- the codes depend on no more of them; digits and period are not negative, and a counter is the
-- floor of an exact quotient.
use eidola.Common.{
  ℕ, zero, suc, ◌+◌, ◌-◌, ◌*◌, ◌/◌, ◌%◌, ◌^◌, String, Bool, true, false, not, Option, none, some,
  List, [], ◌∷◌, str_eq, ltb, ◌==◌, if◌then◌else◌, length, get_elem?,
}
use Prim.Native.Char.{Char, code}

pub record TotpConfig : Type 0 where
  pub secret : String
  pub digits : ℕ
  pub period : ℕ
  pub algorithm : String
  pub issuer : String
  pub account_name : String

-- What the package takes from strings, base32 (none is an error), crypto/hmac with SHA-1, fmt (the
-- verbs %d and %0*d) and net/url. Lists of numbers are slices of bytes.
pub record Library : Type 0 where
  pub to_upper : String → String
  pub without_spaces : String → String
  pub without_padding : String → String
  pub trim_space : String → String
  pub decode : String → Option (List ℕ)
  pub hmac : List ℕ → List ℕ → List ℕ
  pub decimal : ℕ → String
  pub padded : ℕ → ℕ → String
  pub uri : TotpConfig → String

abbrev pub default_period : ℕ
default_period = 30

abbrev pub default_digits : ℕ
default_digits = 6

abbrev pub default_algorithm : String
default_algorithm = "SHA1"

unfoldable pub new_default_totp_config : String → String → TotpConfig
new_default_totp_config issuer account_name = record {
  secret = "";
  digits = default_digits;
  period = default_period;
  algorithm = default_algorithm;
  issuer = issuer;
  account_name = account_name;
}

unfoldable pub normalised : Library → String → String
normalised lib secret = lib.without_padding (lib.to_upper (lib.without_spaces secret))

unfoldable pub completed : Library → TotpConfig → TotpConfig
unfolding normalised
completed lib config = record config {
  secret = normalised lib config.secret;
  digits = if config.digits == 0 then default_digits else config.digits;
  period = if config.period == 0 then default_period else config.period;
  algorithm = if str_eq config.algorithm "" then default_algorithm else config.algorithm;
}

-- NewTOTP of a configuration that is not nil: `secret` is what GenerateSecret answers, none for an
-- error of the random source. A TOTP is its configuration.
unfoldable pub new_totp : Library → TotpConfig → Option String → Option TotpConfig
new_totp lib config secret =
    if str_eq config.secret ""
    then elim secret [ none ↦ none | some s ↦ some (completed lib (record config { secret = s })) ]
    else some (completed lib config)

-- The bytes of the counter, the highest first: n of them in front of some others.
unfoldable pub counter_bytes : ℕ → ℕ → List ℕ → List ℕ
counter_bytes zero counter bytes = bytes
counter_bytes (suc n) counter bytes = counter_bytes n (counter / 256) (counter % 256 ∷ bytes)

-- hash[i]; a digest of SHA-1 has all the bytes that are read, and 0 stands for a panic.
unfoldable pub byte_at : List ℕ → ℕ → ℕ
byte_at hash i = elim (get_elem? hash i) [ none ↦ 0 | some b ↦ b ]

unfoldable pub truncated : List ℕ → ℕ
unfolding byte_at
truncated hash =
    let offset = byte_at hash (length hash - 1) % 16 in
    byte_at hash offset % 128 * 16777216
    + byte_at hash (offset + 1) % 256 * 65536
    + byte_at hash (offset + 2) % 256 * 256
    + byte_at hash (offset + 3) % 256

module _ (lib : Library) where
  unfoldable pub generate_otp : TotpConfig → ℕ → Option String
  generate_otp t counter = elim (lib.decode t.secret) [
    | none ↦ none
    | some key ↦ some (
        lib.padded t.digits (truncated (lib.hmac key (counter_bytes 8 counter [])) % 10 ^ t.digits))
  ]

  unfoldable pub generate_code_at : TotpConfig → ℕ → Option String
  generate_code_at t at = generate_otp t (at / t.period)

  -- The loop of ValidateCodeWithWindow: n steps from a time on.
  unfoldable pub validate_steps : TotpConfig → String → ℕ → ℕ → Bool
  validate_steps t code at zero = false
  validate_steps t code at (suc n) =
      let rest = validate_steps t code (at + t.period) n in
      elim (generate_code_at t at) [
        | none ↦ rest
        | some valid_code ↦ if str_eq valid_code code then true else rest
      ]

-- len of a string in UTF-8.
abbrev char_bytes : Char → ℕ
char_bytes c =
    if ltb (code c) 128
    then 1
    else if ltb (code c) 2048
    then 2
    else if ltb (code c) 65536
    then 3
    else 4

unfoldable pub byte_length : String → ℕ
byte_length String.[] = 0
byte_length (String.◌∷◌ c s) = char_bytes c + byte_length s

module _ (lib : Library) where
  unfoldable pub validate_code_with_window : TotpConfig → String → ℕ → ℕ → Bool
  validate_code_with_window t input window now =
      let code = lib.trim_space input in
      if not (byte_length code == t.digits)
      then false
      else validate_steps lib t code (now - window * t.period) (suc (window + window))

  unfoldable pub validate_code : TotpConfig → String → ℕ → Bool
  validate_code t input now = validate_code_with_window t input 0 now
