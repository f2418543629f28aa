-- ===== src/Mfa/Confirmation.antt =====
-- auth/mfa/authenticator.go, Setup and VerifyChallenge: a code that confirms the one is accepted by
-- the other.
use eidola.Common.{
  ◌⊎◌, Option, none, ℕ, ◌+◌, ◌*◌, ◌/◌, ◌≤◌, ◌<◌, String, ◌≡◌, refl, sym, subst, ◌∙◌, ◌≢◌, inl, inr,
  true, false, some, arith, str_eq, eq_iff, eq_refl, Option-cases, Option, ◌⊎◌,
}
use native.Mathlib.Nat.{mul-le-mul_right}
use eidola.Common.Dict.{Dict, get, assign, get-assign}
use eidola.Mfa.Totp.{
  TotpConfig, Library, generate_otp, normalised, completed, new_totp, validate_code_with_window,
}
use eidola.Mfa.Window.{validate-window}
use eidola.Mfa.Repository.{
  mfa_type_totp, InMemoryMfaRepository, or_empty, get_user_mfa, set_user_mfa,
}
use eidola.Mfa.Provider.{
  TotpProvider, read, setup_data, setup_config, setup_with, refused, setup, verify_challenge, check,
}

same_otp :
    (lib : Library) (t u : TotpConfig) (c : ℕ)
    → t.secret ≡ u.secret
    → t.digits ≡ u.digits
    → generate_otp lib u c ≡ generate_otp lib t c
unfolding generate_otp
same_otp lib t u c es ed = ground arith

-- What makes a code acceptable carries over to a larger window and to a TOTP with the same secret,
-- digits and period.
wider :
    (lib : Library) (t u : TotpConfig) (input : String) (w v now : ℕ)
    → t.secret ≡ u.secret
    → t.digits ≡ u.digits
    → t.period ≡ u.period
    → w ≤ v
    → 0 < t.period
    → v * t.period ≤ now
    → validate_code_with_window lib t input w now ≡ true
    → validate_code_with_window lib u input v now ≡ true
wider lib t u input w v now es ed ep le pos late h =
    let more = mul-le-mul_right t.period le in
    let small : w * t.period ≤ now = omega arith in
    let parts = (validate-window lib t input w now pos small).0 h in
    let c = parts.1.0 in
    (validate-window lib u input v now (subst (λ x. 0 < x) ep pos)
        (subst (λ x. v * x ≤ now) ep late)).1
      (
        parts.0 ∙ ed,
        (
          c,
          (
            subst (λ x. now / x ≤ c + v) ep (omega arith),
            subst (λ x. c ≤ now / x + v) ep (omega arith),
            same_otp lib t u c es ed ∙ parts.1.1.2,
          ),
        ),
      )

setup_succeeds :
    (lib : Library) (p : TotpProvider) (r : InMemoryMfaRepository) (user_id : String)
    (params : Dict String) (t : TotpConfig) (now : ℕ) (d : Dict String)
    → (setup_with lib p r user_id params (some t) now).1 ≡ inr d
    → read params "verify" ≡ "true"
    → read params "code" ≢ ""
    → (validate_code_with_window lib t (read params "code") 1 now ≡ true)
      × ((setup_with lib p r user_id params (some t) now).0
          ≡ set_user_mfa r user_id mfa_type_totp
              (assign (setup_data lib p t) "setup_complete" "true"))
unfolding setup_with
setup_succeeds lib p r user_id params t now d h v c =
    let verify : str_eq (read params "verify") "true" ≡ true =
      ground (arith, v, eq_iff (read params "verify") "true") in
    let code : str_eq (read params "code") "" ≡ false =
      ground (arith, c, eq_iff (read params "code") "") in
    (ground arith, ground arith)

-- The TOTP of a call of Setup, and the one that VerifyChallenge makes of its secret.
abbrev pub new_for : Library → TotpProvider → String → Dict String → String → TotpConfig
new_for lib p user_id params s =
    completed lib (record (setup_config p user_id params) { secret = s })

abbrev pub stored_for : Library → TotpProvider → String → TotpConfig
stored_for lib p s =
    completed lib (record p.default_config { secret = normalised lib s; account_name = "" })

abbrev pub after_setup :
    Library
    → TotpProvider
    → InMemoryMfaRepository
    → String
    → Dict String
    → String
    → InMemoryMfaRepository
after_setup lib p r user_id params s =
    set_user_mfa r user_id mfa_type_totp
      (assign (setup_data lib p (new_for lib p user_id params s)) "setup_complete" "true")

pub setup-confirmed :
    (lib : Library) (p : TotpProvider) (r : InMemoryMfaRepository) (user_id : String)
    (params : Dict String) (s : String) (now : ℕ) (d : Dict String)
    → (setup lib p r user_id params (some s) now).1 ≡ inr d
    → read params "verify" ≡ "true"
    → read params "code" ≢ ""
    → (validate_code_with_window lib (new_for lib p user_id params s) (read params "code") 1 now
        ≡ true)
      × ((setup lib p r user_id params (some s) now).0 ≡ after_setup lib p r user_id params s)
unfolding setup new_totp setup_config
setup-confirmed lib p r user_id params s now d h v c =
    elim (Option-cases (refused (get_user_mfa r user_id mfa_type_totp) params)) [
      | inl goes ↦
          ground
            (arith, setup_succeeds lib p r user_id params (new_for lib p user_id params s) now d)
      | inr (e, stops) ↦ absurd (ground arith)
    ]

with_stored :
    (lib : Library) (p : TotpProvider) (r : InMemoryMfaRepository) (user_id : String)
    (params : Dict String) (t : TotpConfig) (now : ℕ)
    → ((setup_with lib p r user_id params (some t) now).0 ≡ r)
      ⊎ ((validate_code_with_window lib t (read params "code") 1 now ≡ true)
          × ((setup_with lib p r user_id params (some t) now).0
              ≡ set_user_mfa r user_id mfa_type_totp
                  (assign (setup_data lib p t) "setup_complete" "true")))
unfolding setup_with
with_stored lib p r user_id params t now = ground arith

-- What Setup stores, for the secret s: a code of s is given with the call.
abbrev pub Stores :
    Library
    → TotpProvider
    → InMemoryMfaRepository
    → String
    → Dict String
    → ℕ
    → String
    → InMemoryMfaRepository
    → Type 0
Stores lib p r user_id params now s r' =
    (validate_code_with_window lib (new_for lib p user_id params s) (read params "code") 1 now
      ≡ true)
    × (r' ≡ after_setup lib p r user_id params s)

pub setup-Stores :
    (lib : Library) (p : TotpProvider) (r : InMemoryMfaRepository) (user_id : String)
    (params : Dict String) (secret : Option String) (now : ℕ)
    → ((setup lib p r user_id params secret now).0 ≡ r)
      ⊎ ((s : String) × ((secret ≡ some s)
            × Stores lib p r user_id params now s (setup lib p r user_id params secret now).0))
unfolding setup new_totp setup_config setup_with
setup-Stores lib p r user_id params none now = ground arith
setup-Stores lib p r user_id params (some s) now =
    elim (Option-cases (refused (get_user_mfa r user_id mfa_type_totp) params)) [
      | inl goes ↦ elim (with_stored lib p r user_id params (new_for lib p user_id params s) now) [
        | inl same ↦ inl (ground arith)
        | inr (valid, stored) ↦ inr (s, (refl, (valid, ground arith)))
      ]
      | inr (e, stops) ↦ inl (ground arith)
    ]

get-set :
    (r : InMemoryMfaRepository) (user_id mfa_type : String) (d : Dict String)
    → get_user_mfa (set_user_mfa r user_id mfa_type d) user_id mfa_type ≡ inr d
unfolding get_user_mfa set_user_mfa
get-set r user_id mfa_type d = ground (
  arith,
  get-assign r.entries user_id (assign (or_empty (get r.entries user_id)) mfa_type d) user_id,
  get-assign (or_empty (get r.entries user_id)) mfa_type d mfa_type,
  eq_refl user_id,
  eq_refl mfa_type,
)

pub verify-after :
    (lib : Library) (p : TotpProvider) (r : InMemoryMfaRepository) (user_id : String)
    (params : Dict String) (s response : String) (now : ℕ)
    → normalised lib s ≢ ""
    → verify_challenge lib p (after_setup lib p r user_id params s) user_id response now
      ≡ inr (validate_code_with_window lib (stored_for lib p s) response p.window now)
unfolding verify_challenge check new_totp read get assign setup_data completed
verify-after lib p r user_id params s response now ne = ground (
  arith,
  get-set r user_id mfa_type_totp
      (assign (setup_data lib p (new_for lib p user_id params s)) "setup_complete" "true"),
  eq_iff (normalised lib s) "",
)

pub same_code :
    (lib : Library) (p : TotpProvider) (user_id : String) (params : Dict String) (s code : String)
    (now : ℕ)
    → 0 < p.window
    → 0 < p.default_config.period
    → p.window * p.default_config.period ≤ now
    → normalised lib (normalised lib s) ≡ normalised lib s
    → validate_code_with_window lib (new_for lib p user_id params s) code 1 now ≡ true
    → validate_code_with_window lib (stored_for lib p s) code p.window now ≡ true
unfolding completed normalised setup_config
same_code lib p user_id params s code now win pos late normal h =
    let period : (new_for lib p user_id params s).period ≡ p.default_config.period = ground arith in
    wider lib (new_for lib p user_id params s) (stored_for lib p s) code 1 p.window now (sym normal)
      refl refl win (subst (λ x. 0 < x) (sym period) pos)
      (subst (λ x. p.window * x ≤ now) (sym period) late) h
